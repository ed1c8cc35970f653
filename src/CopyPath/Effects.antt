-- ===== src/CopyPath/Effects.antt =====
-- What a copy leaves at the destination (internal/envtools/tools/copy_path.go).
use cli_server.Common.{
  ℕ, ◌≡◌, refl, ap, subst, ◌∙◌, Option, some, none, List, [], ◌∷◌, ◌++◌, append-nil, map, Bool,
  true, false, not, ◌&&◌, ◌||◌, if◌then◌else◌, is_nil, Bool-cases, inl, inr, arith,
}
use cli_server.Common.Text.{Text, codes, text_eq}
use cli_server.Common.Int.{int_eq}
use cli_server.CopyPath.Pump.{PumpError, pump_chunks, total_bytes}
use cli_server.CopyPath.Pumped.{source_stdout, pump_chunks-all}
use cli_server.CopyPath.Transfer.{
  Effect, start, terminate, write, remove, move, copied_ws, failed, CopyError, source_start_failed,
  destination_start_failed, rename_failed, pump_failed, Ran, Paths, CopyPathArgs, tmp_path,
  tmp_path_if_not_recursive, cleanup, mv_ends, WsEnv, ws_finish, ws_after_pump, ws_started,
  call_ws_pump,
}

-- the paths that are removed at the destination, in order
abbrev pub removals : List Effect → List Text
removals [] = []
removals (start s p t ∷ es) = removals es
removals (terminate s p ∷ es) = removals es
removals (write b ∷ es) = removals es
removals (remove p ∷ es) = p ∷ removals es
removals (move p q ∷ es) = removals es

-- the renames at the destination, from and to, in order
abbrev pub renames : List Effect → List (Text × Text)
renames [] = []
renames (start s p t ∷ es) = renames es
renames (terminate s p ∷ es) = renames es
renames (write b ∷ es) = renames es
renames (remove p ∷ es) = renames es
renames (move p q ∷ es) = (p, q) ∷ renames es

-- what is written to the destination, in order
abbrev pub writes : List Effect → List Text
writes [] = []
writes (start s p t ∷ es) = writes es
writes (terminate s p ∷ es) = writes es
writes (write b ∷ es) = b ∷ writes es
writes (remove p ∷ es) = writes es
writes (move p q ∷ es) = writes es

pub removals-append : (es fs : List Effect) → removals (es ++ fs) ≡ removals es ++ removals fs
removals-append [] fs = refl
removals-append (start s p t ∷ es) fs = removals-append es fs
removals-append (terminate s p ∷ es) fs = removals-append es fs
removals-append (write b ∷ es) fs = removals-append es fs
removals-append (remove p ∷ es) fs = ap (λ l. p ∷ l) (removals-append es fs)
removals-append (move p q ∷ es) fs = removals-append es fs

renames-append : (es fs : List Effect) → renames (es ++ fs) ≡ renames es ++ renames fs
renames-append [] fs = refl
renames-append (start s p t ∷ es) fs = renames-append es fs
renames-append (terminate s p ∷ es) fs = renames-append es fs
renames-append (write b ∷ es) fs = renames-append es fs
renames-append (remove p ∷ es) fs = renames-append es fs
renames-append (move p q ∷ es) fs = ap (λ l. (p, q) ∷ l) (renames-append es fs)

writes-append : (es fs : List Effect) → writes (es ++ fs) ≡ writes es ++ writes fs
writes-append [] fs = refl
writes-append (start s p t ∷ es) fs = writes-append es fs
writes-append (terminate s p ∷ es) fs = writes-append es fs
writes-append (write b ∷ es) fs = ap (λ l. b ∷ l) (writes-append es fs)
writes-append (remove p ∷ es) fs = writes-append es fs
writes-append (move p q ∷ es) fs = writes-append es fs

removals-map : (ws : List Text) → removals (map write ws) ≡ []
removals-map [] = refl
removals-map (w ∷ ws) = removals-map ws

renames-map : (ws : List Text) → renames (map write ws) ≡ []
renames-map [] = refl
renames-map (w ∷ ws) = renames-map ws

writes-map : (ws : List Text) → writes (map write ws) ≡ ws
writes-map [] = refl
writes-map (w ∷ ws) = ap (λ l. w ∷ l) (writes-map ws)

append-filled : (s t : Text) → is_nil t ≡ false → is_nil (s ++ t) ≡ false
append-filled [] t h = h
append-filled (c ∷ s) t h = refl

filled-append : (s t : Text) → is_nil s ≡ false → is_nil (s ++ t) ≡ false
filled-append [] t h = cc
filled-append (c ∷ s) t h = refl

-- the one path, after an error
abbrev pub after_error : Option PumpError → Text → List Text
after_error none path = []
after_error (some e) path = path ∷ []

-- the one rename, without an error
abbrev pub without_error : Option PumpError → Text × Text → List (Text × Text)
without_error none names = names ∷ []
without_error (some e) names = []

ruleset effect_laws = (
  removals-append, renames-append, writes-append, removals-map, renames-map, writes-map, append-nil,
)

pub tmp_path-filled : (a : CopyPathArgs) (xfer : Text) → is_nil (tmp_path a xfer) ≡ false
tmp_path-filled a xfer =
    filled-append (a.destination_path ++ codes ".partial-") xfer
      (append-filled a.destination_path (codes ".partial-") refl)

ws_after_pump-partial :
    (E : WsEnv) (a : CopyPathArgs) (xfer : Text) (started : List Effect) (ws : List Text)
    (f : Option PumpError)
    → a.recursive ≡ false
    → removals started ≡ []
    → renames started ≡ []
    → (removals (ws_after_pump E a xfer started ws f).effects
        ≡ after_error f (a.destination_path ++ codes ".partial-" ++ xfer))
      × (renames (ws_after_pump E a xfer started ws f).effects
          ≡ without_error f (a.destination_path ++ codes ".partial-" ++ xfer, a.destination_path))
unfolding cleanup tmp_path_if_not_recursive
ws_after_pump-partial E a xfer started ws (some e) plain r m =
    let filled : is_nil (tmp_path a xfer) ≡ false = tmp_path-filled a xfer in
    (simp (effect_laws, plain, filled, r), simp (effect_laws, plain, filled, m))
ws_after_pump-partial E a xfer started ws none plain r m =
    elim (Bool-cases (E.mv_starts && mv_ends E.mv_replies)) [
      | inl e ↦ (simp (effect_laws, plain, e, r), simp (effect_laws, plain, e, m))
      | inr e ↦ (simp (effect_laws, plain, e, r), simp (effect_laws, plain, e, m))
    ]

-- Of a copy of a file through the bridge whose two processes start: if the pump failed, the removal of the
-- file <destination>.partial-<id> is started, once, with no other removal and no rename; if it ended without
-- an error, the rename of that file to the destination is started, once, with no other rename and no
-- removal, whatever becomes of the rename.
pub call_ws_pump-partial :
    (P : Paths) (E : WsEnv) (a : CopyPathArgs) (xfer : Text)
    → a.recursive ≡ false
    → E.source_starts ≡ true
    → E.destination_starts ≡ true
    → (removals (call_ws_pump P E a xfer).effects
        ≡ after_error
            (pump_chunks E.accepts E.source_replies []).failure
            (a.destination_path ++ codes ".partial-" ++ xfer))
      × (renames (call_ws_pump P E a xfer).effects
          ≡ without_error
              (pump_chunks E.accepts E.source_replies []).failure
              (a.destination_path ++ codes ".partial-" ++ xfer, a.destination_path))
unfolding call_ws_pump
call_ws_pump-partial P E a xfer plain s d =
    let p = pump_chunks E.accepts E.source_replies [] in
    rw s (
      rw d
        (ws_after_pump-partial E a xfer (ws_started P a xfer) p.written p.failure plain refl refl))

-- An answer that says `copied_ws n` was given after all of `out` was written, n bytes, and for a file
-- after the rename succeeded.
unfoldable pub IsCopied : WsEnv → CopyPathArgs → List Text → Ran → Type 0
IsCopied E a out r =
    (n : ℕ)
    → r.outcome ≡ copied_ws n
    → (writes r.effects ≡ out)
      × (n ≡ total_bytes out)
      × ((a.recursive || mv_ends E.mv_replies) ≡ true)

second_true : (b c : Bool) → (b && c) ≡ true → c ≡ true
second_true b c = ground (arith)

if-IsCopied :
    (E : WsEnv) (a : CopyPathArgs) (out : List Text) (b : Bool) (m n : Ran)
    → (b ≡ true → IsCopied E a out m)
    → (b ≡ false → IsCopied E a out n)
    → IsCopied E a out (if b then m else n)
unfolding IsCopied
if-IsCopied E a out true m n hm hn = hm refl
if-IsCopied E a out false m n hm hn = hn refl

failed-IsCopied :
    (E : WsEnv) (a : CopyPathArgs) (out : List Text) (es : List Effect) (e : CopyError)
    → IsCopied E a out (record { effects = es; outcome = failed e })
unfolding IsCopied
failed-IsCopied E a out es e n h = cc

reported-IsCopied :
    (E : WsEnv) (a : CopyPathArgs) (es : List Effect) (ws : List Text)
    → writes es ≡ ws
    → (a.recursive || mv_ends E.mv_replies) ≡ true
    → IsCopied E a ws (record { effects = es; outcome = copied_ws (total_bytes ws) })
unfolding IsCopied
reported-IsCopied E a es ws w mv n h = (w, cc, mv)

ws_finish-IsCopied :
    (E : WsEnv) (a : CopyPathArgs) (xfer : Text) (done : List Effect) (ws : List Text)
    → writes done ≡ ws
    → IsCopied E a ws (ws_finish E a xfer done ws)
ws_finish-IsCopied E a xfer done ws w =
    let moved = move (tmp_path a xfer) a.destination_path ∷ [] in
    if-IsCopied E a ws a.recursive (record { effects = done; outcome = copied_ws (total_bytes ws) })
      _ (λ r. reported-IsCopied E a done ws w (rw r refl))
      (λ r.
        if-IsCopied E a ws (E.mv_starts && mv_ends E.mv_replies)
          (record { effects = done ++ moved; outcome = copied_ws (total_bytes ws) }) _
          (λ e.
            reported-IsCopied E a (done ++ moved) ws
              (writes-append done moved ∙ append-nil (writes done) ∙ w)
              (rw r (second_true E.mv_starts (mv_ends E.mv_replies) e)))
          (λ e. failed-IsCopied E a ws _ rename_failed))

ws_after_pump-IsCopied :
    (E : WsEnv) (a : CopyPathArgs) (xfer : Text) (started : List Effect) (out ws : List Text)
    (f : Option PumpError)
    → writes started ≡ []
    → (f ≡ none → ws ≡ out)
    → IsCopied E a out (ws_after_pump E a xfer started ws f)
ws_after_pump-IsCopied E a xfer started out ws (some e) none_before whole =
    failed-IsCopied E a out _ (pump_failed e)
ws_after_pump-IsCopied E a xfer started out ws none none_before whole =
    subst (λ o. IsCopied E a o (ws_after_pump E a xfer started ws none)) (whole refl)
      (ws_finish-IsCopied E a xfer _ ws (simp (effect_laws, none_before, append-nil)))

ran-IsCopied :
    (P : Paths) (E : WsEnv) (a : CopyPathArgs) (xfer : Text)
    → IsCopied E a (source_stdout E.source_replies) (call_ws_pump P E a xfer)
unfolding call_ws_pump
ran-IsCopied P E a xfer =
    let out = source_stdout E.source_replies in
    let p = pump_chunks E.accepts E.source_replies [] in
    if-IsCopied E a out (not E.source_starts) _ _
      (λ x. failed-IsCopied E a out _ source_start_failed)
      (λ x.
        if-IsCopied E a out (not E.destination_starts) _ _
          (λ y. failed-IsCopied E a out _ destination_start_failed)
          (λ y.
            ws_after_pump-IsCopied E a xfer (ws_started P a xfer) out p.written p.failure refl
              (pump_chunks-all E.accepts E.source_replies)))

-- A copy through the bridge that reports n bytes wrote to the destination exactly the stdout of the
-- source, in order, and its size is n; and it was recursive, or its rename had succeeded.
pub call_ws_pump-copied :
    (P : Paths) (E : WsEnv) (a : CopyPathArgs) (xfer : Text) (n : ℕ)
    → (call_ws_pump P E a xfer).outcome ≡ copied_ws n
    → (writes (call_ws_pump P E a xfer).effects ≡ source_stdout E.source_replies)
      × (n ≡ total_bytes (source_stdout E.source_replies))
      × ((a.recursive || mv_ends E.mv_replies) ≡ true)
unfolding IsCopied
call_ws_pump-copied P E a xfer n h = ran-IsCopied P E a xfer n h
