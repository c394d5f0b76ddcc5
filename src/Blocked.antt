-- ===== src/Blocked.antt =====
-- internal/services/blocked.go: BlockedService, the list of domains that must never be reachable.
pub mod Normal
pub mod Matching
use rpi_network_filter.Common.{
  ℕ, ◌+◌, ◌==◌, Bool, true, false, not, ◌&&◌, ◌||◌, Option, none, some, List, [], ◌∷◌, ◌++◌, Text,
  codes, text_eq, Result, ok, err, any, keep, update_where, if◌then◌else◌,
}
use rpi_network_filter.Strings.{to_lower, trim_space, trim_prefix, has_suffix, is_nil}
use rpi_network_filter.Validate.{valid_domain}
use rpi_network_filter.Models.{BlockedDomain}
use rpi_network_filter.Db.{
  Db, Action, BlockMatch, domain_required, bad_match_type, db, unique, order_by, text_lt,
}

unfoldable pub normalize_domain : Text → Text
normalize_domain d =
    let d' = trim_prefix (to_lower (trim_space d)) (codes "*.") in
    if not (valid_domain d') then [] else d'

unfoldable pub list_blocked : Db → List BlockedDomain
list_blocked s = order_by (λ a b. text_lt a.domain b.domain) s.blocked_domains

unfoldable pub enabled_domains : Db → List BlockedDomain
enabled_domains s =
    order_by (λ a b. text_lt a.domain b.domain) (keep (λ d. d.enabled) s.blocked_domains)

-- INSERT INTO blocked_domains
unfoldable pub insert_blocked : Text → Text → Text → Bool → Action ℕ
insert_blocked domain match_type reason enabled s =
    if any (λ b. text_eq b.domain domain) s.blocked_domains then (err (db unique), s) else (
      ok (s.blocked_domains_seq + 1),
      record s {
        blocked_domains =
            s.blocked_domains
            ++ record {
              id = s.blocked_domains_seq + 1;
              domain = domain;
              match_type = match_type;
              reason = reason;
              enabled = enabled;
              created_at = s.now;
            }
              ∷ [];
        blocked_domains_seq = s.blocked_domains_seq + 1;
      },
    )

unfoldable pub create_blocked : BlockedDomain → Action ℕ
unfolding insert_blocked
create_blocked d s =
    let domain = normalize_domain d.domain in
    if is_nil domain
    then (err domain_required, s)
    else let match_type = if is_nil d.match_type then codes "suffix" else d.match_type in
      if not (text_eq match_type (codes "exact")) && not (text_eq match_type (codes "suffix"))
      then (err bad_match_type, s)
      else insert_blocked domain match_type d.reason d.enabled s

unfoldable pub update_blocked : ℕ → BlockedDomain → Action (Unit {0})
update_blocked id d s =
    let match_type =
      if not (text_eq d.match_type (codes "exact")) && not (text_eq d.match_type (codes "suffix"))
      then codes "suffix"
      else d.match_type in
    (
      ok tt,
      record s {
        blocked_domains =
            update_where (λ b. b.id == id)
              (λ b. record b { match_type = match_type; reason = d.reason; enabled = d.enabled })
              s.blocked_domains;
      },
    )

unfoldable pub delete_blocked : ℕ → Action (Unit {0})
delete_blocked id s =
    (ok tt, record s { blocked_domains = keep (λ b. not (b.id == id)) s.blocked_domains })

-- The test of one row in the loop of IsBlocked.
unfoldable pub row_blocks : Text → BlockedDomain → Bool
row_blocks candidate m =
    let blocked = normalize_domain m.domain in
    if is_nil blocked
    then false
    else if text_eq m.match_type (codes "exact")
    then text_eq candidate blocked
    else text_eq candidate blocked || has_suffix candidate (b'.' ∷ blocked)

-- The loop over the rows.
unfoldable pub first_match : Text → List BlockedDomain → Option BlockMatch
first_match candidate [] = none
first_match candidate (m ∷ rows) =
    let rest = first_match candidate rows in
    if row_blocks candidate m
    then some (record { domain = m.domain; match_type = m.match_type; reason = m.reason })
    else rest

unfoldable pub is_blocked : Db → Text → Option BlockMatch
is_blocked s domain =
    let candidate = normalize_domain domain in
    if is_nil candidate
    then none
    else first_match candidate (keep (λ d. d.enabled) s.blocked_domains)
