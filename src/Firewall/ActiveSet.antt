-- ===== src/Firewall/ActiveSet.antt =====
-- internal/services/firewall.go: ListActiveSetIPs, which reads what nft prints of a policy's set.
use rpi_network_filter.Common.{
  ℕ, ◌==◌, Bool, true, false, not, ◌&&◌, ◌||◌, Option, none, some, List, [], ◌∷◌, ◌++◌, Text, codes,
  map, keep, ok, err, if◌then◌else◌,
}
use rpi_network_filter.Strings.{is_nil, trim_space, has_prefix, trim_prefix, split, contains_char}
use rpi_network_filter.Db.{Db}
use rpi_network_filter.Policy.{default_policy}
use rpi_network_filter.Firewall.Nftables.{policy_set_name}

-- TrimSuffix of a closing brace.
unfoldable pub trim_brace : Text → Text
trim_brace [] = []
trim_brace (c ∷ s) = let rest = trim_brace s in if is_nil s && c == b'}' then [] else c ∷ rest

-- An address without what follows it behind a blank.
unfoldable pub before_space : Text → Text
before_space [] = []
before_space (c ∷ s) = let rest = before_space s in if c == b' ' then [] else c ∷ rest

-- The addresses between the commas of a line.
unfoldable pub line_ips : Text → List Text
unfolding before_space split trim_space contains_char
line_ips line =
    keep (λ p. not (is_nil p) && contains_char b'.' p)
      (map (λ p. before_space (trim_space p)) (split b',' line))

-- The loop over the lines, inside the elements or before them.
unfoldable pub element_ips : Bool → List Text → List Text
unfolding line_ips trim_brace trim_space has_prefix trim_prefix contains_char
element_ips in_elements [] = []
element_ips in_elements (l ∷ ls) =
    let inside = element_ips true ls in
    let outside = element_ips false ls in
    let text = trim_space l in
    let opens = has_prefix text (codes "elements = {") in
    let line = trim_brace (trim_prefix text (codes "elements = {")) in
    if not (in_elements || opens)
    then outside
    else if contains_char b'}' line
    then line_ips line
    else line_ips line ++ inside

-- The command that prints a policy's set.
abbrev pub list_set : ℕ → List Text
list_set id =
    codes "nft"
    ∷ codes "-a"
    ∷ codes "list"
    ∷ codes "set"
    ∷ codes "inet"
    ∷ codes "filter"
    ∷ policy_set_name id
    ∷ []

unfoldable pub printed_ips : Option Text → List Text
unfolding element_ips split
printed_ips none = []
printed_ips (some text) = element_ips false (split 10 text)

-- `output` is what a command prints, if it succeeds; the id 0 stands for the default policy.
unfoldable pub list_active_set_ips : (List Text → Option Text) → ℕ → Db → List Text
unfolding printed_ips policy_set_name default_policy
list_active_set_ips output policy_id s =
    if not (policy_id == 0)
    then printed_ips (output (list_set policy_id))
    else elim (default_policy s) [ err e ↦ [] | ok p ↦ printed_ips (output (list_set p.id)) ]
