-- ===== src/Names.antt =====
-- Names of environments (internal/envtools/nameresolver/resolver.go) and the replies to approval requests
-- (internal/codexappgateway/approvalfilter/filter.go), both of the tools' side of the gateway.
pub mod Resolver
pub mod Approval
