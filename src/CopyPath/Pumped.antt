-- ===== src/CopyPath/Pumped.antt =====
-- What pumpChunks writes to the destination (internal/envtools/tools/copy_path.go).
use cli_server.Common.{
  ℕ, ◌≡◌, refl, sym, ap, subst, ◌∙◌, Option, some, none, List, [], ◌∷◌, ◌++◌, append-nil,
  append_assoc, Bool, true, false, not, ◌||◌, if◌then◌else◌, length,
}
use cli_server.Common.Text.{Text}
use cli_server.CopyPath.{
  Chunk, ProcessReadResult, Reply, call_failed, undecodable, result, is_failure,
}
use cli_server.CopyPath.Pump.{
  Pumped, PumpError, stopped, forward, forward_body, after_forward, pump_chunks, source_exit,
  source_bad_base64, destination_write_failed, source_read_failed, source_undecodable,
}

abbrev pub bodies : Bool → Option Text → List Text
bodies false d = []
bodies true none = []
bodies true (some b) = b ∷ []

-- the stdout of a reply
abbrev pub stdout_of : List Chunk → List Text
stdout_of [] = []
stdout_of (c ∷ cs) = bodies c.is_stdout c.decoded ++ stdout_of cs

-- The stdout of the source: that of its replies up to the one that says it has ended.
abbrev pub source_stdout : List Reply → List Text
source_stdout [] = []
source_stdout (call_failed ∷ rs) = []
source_stdout (undecodable ∷ rs) = []
source_stdout (result r ∷ rs) =
    stdout_of r.chunks ++ (if not (r.exited || r.closed) then source_stdout rs else [])

-- What was written is `before` and then a part of `out` from its start, all of it if there is no error.
abbrev pub Forwards : List Text → List Text → Pumped → Type 0
Forwards before out p =
    (rest : List Text) × (p.written ++ rest ≡ before ++ out) × (p.failure ≡ none → rest ≡ [])

stopped-Forwards : (ws out : List Text) (e : PumpError) → Forwards ws out (stopped ws e)
stopped-Forwards ws out e = (out, refl, λ h. cc)

done-Forwards : (ws : List Text) → Forwards ws [] (record { written = ws; failure = none })
done-Forwards ws = ([], refl, λ h. refl)

-- a part that was written comes before the rest
Forwards-before :
    (ws first out : List Text) (p : Pumped)
    → Forwards (ws ++ first) out p
    → Forwards ws (first ++ out) p
Forwards-before ws first out p (rest, split, all) = (rest, split ∙ append_assoc ws first out, all)

if-Forwards :
    (b : Bool) (ws x y : List Text) (m n : Pumped)
    → Forwards ws x m
    → Forwards ws y n
    → Forwards ws (if b then x else y) (if b then m else n)
if-Forwards true ws x y m n hm hn = hm
if-Forwards false ws x y m n hm hn = hn

body-Forwards :
    (accepts : ℕ → Bool) (is_stdout : Bool) (d : Option Text) (ws out : List Text)
    (next : List Text → Pumped)
    → ((vs : List Text) → Forwards vs out (next vs))
    → Forwards ws
        (bodies is_stdout d ++ out)
        (if not is_stdout then next ws else forward_body accepts ws d next)
body-Forwards accepts false d ws out next h = h ws
body-Forwards accepts true none ws out next h = stopped-Forwards ws out source_bad_base64
body-Forwards accepts true (some b) ws out next h =
    elim (accepts (length ws))
      as (λ a.
        Forwards ws (b ∷ out)
          (if a then next (ws ++ b ∷ []) else stopped ws destination_write_failed)) [
            | true ↦ Forwards-before ws (b ∷ []) out (next (ws ++ b ∷ [])) (h (ws ++ b ∷ []))
            | false ↦ stopped-Forwards ws (b ∷ out) destination_write_failed
          ]

forward-Forwards :
    (accepts : ℕ → Bool) (cs : List Chunk) (ws : List Text)
    → Forwards ws (stdout_of cs) (forward accepts cs ws)
unfolding forward
forward-Forwards accepts [] ws = done-Forwards ws
forward-Forwards accepts (c ∷ cs) ws =
    body-Forwards accepts c.is_stdout c.decoded ws (stdout_of cs) (forward accepts cs)
      (forward-Forwards accepts cs)

ended-Forwards :
    (b g : Bool) (before out more : List Text) (next : List Text → Pumped)
    → Forwards (before ++ out) more (next (before ++ out))
    → Forwards before (out ++ (if b then more else [])) (
        if b
        then next (before ++ out)
        else if g
        then stopped (before ++ out) source_exit
        else record { written = before ++ out; failure = none })
ended-Forwards true g before out more next h =
    Forwards-before before out more (next (before ++ out)) h
ended-Forwards false true before out more next h = ([], append_assoc before out [], λ x. refl)
ended-Forwards false false before out more next h = ([], append_assoc before out [], λ x. refl)

-- everything was written, so the rest is empty
all_written :
    (ws before out rest : List Text) → ws ++ rest ≡ before ++ out → rest ≡ [] → ws ≡ before ++ out
all_written ws before out rest split e = sym (append-nil ws) ∙ ap (λ l. ws ++ l) (sym e) ∙ split

after_forward-Forwards :
    (r : ProcessReadResult) (before ws out more : List Text) (f : Option PumpError)
    (next : List Text → Pumped)
    → Forwards before out (record { written = ws; failure = f })
    → ((vs : List Text) → Forwards vs more (next vs))
    → Forwards before
        (out ++ (if not (r.exited || r.closed) then more else []))
        (after_forward r ws f next)
after_forward-Forwards r before ws out more (some e) next (rest, split, all) h =
    let later = if not (r.exited || r.closed) then more else [] in
    (
      rest ++ later,
      sym (append_assoc ws rest later) ∙ ap (λ l. l ++ later) split ∙ append_assoc before out later,
      λ x. cc,
    )
after_forward-Forwards r before ws out more none next (rest, split, all) h =
    let whole = all_written ws before out rest split (all refl) in
    subst
      (λ vs.
        Forwards before (out ++ (if not (r.exited || r.closed) then more else []))
          (after_forward r vs none next))
      (sym whole)
      (ended-Forwards (not (r.exited || r.closed)) (is_failure r.exit_code) before out more next
        (h (before ++ out)))

pump_chunks-Forwards :
    (accepts : ℕ → Bool) (rs : List Reply) (ws : List Text)
    → Forwards ws (source_stdout rs) (pump_chunks accepts rs ws)
unfolding pump_chunks
pump_chunks-Forwards accepts [] ws = stopped-Forwards ws [] source_read_failed
pump_chunks-Forwards accepts (call_failed ∷ rs) ws = stopped-Forwards ws [] source_read_failed
pump_chunks-Forwards accepts (undecodable ∷ rs) ws = stopped-Forwards ws [] source_undecodable
pump_chunks-Forwards accepts (result r ∷ rs) ws =
    let p = forward accepts r.chunks ws in
    after_forward-Forwards r ws p.written (stdout_of r.chunks) (source_stdout rs) p.failure
      (pump_chunks accepts rs) (forward-Forwards accepts r.chunks ws)
      (pump_chunks-Forwards accepts rs)

-- Whatever the executors answer, the destination is written the stdout of the source from its start, in
-- order and without a gap.
pub pump_chunks-prefix :
    (accepts : ℕ → Bool) (rs : List Reply)
    → (rest : List Text) × ((pump_chunks accepts rs []).written ++ rest ≡ source_stdout rs)
pump_chunks-prefix accepts rs =
    let (rest, split, all) = pump_chunks-Forwards accepts rs [] in (rest, split)

-- The pump without an error wrote all that the source put out.
pub pump_chunks-all :
    (accepts : ℕ → Bool) (rs : List Reply)
    → (pump_chunks accepts rs []).failure ≡ none
    → (pump_chunks accepts rs []).written ≡ source_stdout rs
pump_chunks-all accepts rs fine =
    let (rest, split, all) = pump_chunks-Forwards accepts rs [] in
    all_written (pump_chunks accepts rs []).written [] (source_stdout rs) rest split (all fine)
