-- ===== src/Firewall/Ruleset/Forward.antt =====
-- internal/services/firewall.go: the lines of the forward chain before the dispatch, and nft on them.
use rpi_network_filter.Common.{
  ◌≡◌, refl, ap, ◌∙◌, inl, inr, Bool, Bool-cases, true, false, Option, none, some, if◌then◌else◌,
  text_eq, text_eq_refl, List, [], ◌∷◌, ◌++◌, Text, codes, map, keep, In,
}
use mathlib.Core.List.{append_assoc}
use rpi_network_filter.Strings.{to_lower}
use rpi_network_filter.Validate.{valid_mac}
use rpi_network_filter.Models.{Device}
use rpi_network_filter.Db.{Db}
use rpi_network_filter.Firewall.{PolicySnapshot, blocked_macs}
use rpi_network_filter.Firewall.Nftables.{policy_chain_name}
use rpi_network_filter.Firewall.Ruleset.{drop_line, dispatch_lines, forward_lines}

In-keep :
    {A : Type 0} (p : A → Bool) (xs : List A) (a : A) → p a ≡ true → In a xs → In a (keep p xs)
In-keep p [] a h m = m
In-keep p (x ∷ xs) a h (inl e) = let h' : p x ≡ true = (rw e h) in rw h' (inl e)
In-keep p (x ∷ xs) a h (inr m) = elim (Bool-cases (p x)) [
  | inl t ↦ rw t (inr (In-keep p xs a h m))
  | inr t ↦ rw t (In-keep p xs a h m)
]

pub In-map : {A B : Type 0} (f : A → B) (xs : List A) (a : A) → In a xs → In (f a) (map f xs)
In-map f [] a m = m
In-map f (x ∷ xs) a (inl e) = inl (ap f e)
In-map f (x ∷ xs) a (inr m) = inr (In-map f xs a m)

pub In-split : {A : Type 0} (xs : List A) (a : A) → In a xs → (us vs : List A) × (xs ≡ us ++ a ∷ vs)
In-split [] a m = absurd m
In-split (x ∷ xs) a (inl e) = ([], xs, ap (λ r. r ∷ xs) e)
In-split (x ∷ xs) a (inr m) = let (us, vs, e) = In-split xs a m in (x ∷ us, vs, ap (λ r. x ∷ r) e)

map-append : {A B : Type 0} (f : A → B) (xs ys : List A) → map f (xs ++ ys) ≡ map f xs ++ map f ys
map-append f [] ys = refl
map-append f (x ∷ xs) ys = ap (λ r. f x ∷ r) (map-append f xs ys)

pub In-blocked_macs :
    (s : Db) (d : Device)
    → In d s.devices
    → d.is_blocked ≡ true
    → valid_mac d.mac_address ≡ true
    → In d.mac_address (blocked_macs s)
unfolding blocked_macs
In-blocked_macs s d m b v =
    In-keep valid_mac (map (λ d. d.mac_address) (keep (λ d. d.is_blocked) s.devices)) d.mac_address
      v
      (In-map (λ d. d.mac_address) (keep (λ d. d.is_blocked) s.devices) d
        (In-keep (λ d. d.is_blocked) s.devices d b m))

-- The lines before the first one that looks at a packet's destination or sender.
abbrev pub opening : List Text
opening =
    codes "    chain forward {"
    ∷ codes "        type filter hook forward priority filter; policy drop;"
    ∷ codes "        ct state established,related accept"
    ∷ []

abbrev closing : PolicySnapshot → List Text
closing snap =
    codes "        ip daddr @doh_resolvers tcp dport 443 log prefix \"[NETFILTER-DROP-DOH] \" drop"
    ∷ codes
        "        ip daddr @doh_resolvers udp dport 853 log prefix \"[NETFILTER-DROP-DOT] \" drop"
    ∷ (dispatch_lines snap.assignments
        ++ (codes "        jump " ++ policy_chain_name snap.default_id) ∷ codes "    }" ∷ [] ∷ [])

forward_lines-eq :
    (macs : List Text) (snap : PolicySnapshot)
    → forward_lines macs snap ≡ opening ++ (map drop_line macs ++ closing snap)
unfolding forward_lines
forward_lines-eq macs snap = refl

drops-split :
    (us vs : List Text) (mac : Text) (rest : List Text)
    → map drop_line (us ++ mac ∷ vs) ++ rest
      ≡ map drop_line us ++ drop_line mac ∷ (map drop_line vs ++ rest)
drops-split us vs mac rest =
    ap (λ l. l ++ rest) (map-append drop_line us (mac ∷ vs))
    ∙ append_assoc (map drop_line us) (map drop_line (mac ∷ vs)) rest

-- Before the line that drops a blocked device stand only the opening of the chain, and drops of other
-- devices.
forward_lines-drop_line :
    (s : Db) (snap : PolicySnapshot) (d : Device)
    → In d s.devices
    → d.is_blocked ≡ true
    → valid_mac d.mac_address ≡ true
    → (macs : List Text) × (rest : List Text) × (forward_lines (blocked_macs s) snap
        ≡ opening ++ (map drop_line macs ++ drop_line d.mac_address ∷ rest))
forward_lines-drop_line s snap d m b v =
    let (us, vs, e) = In-split (blocked_macs s) d.mac_address (In-blocked_macs s d m b v) in
    (
      us,
      map drop_line vs ++ closing snap,
      ap (λ macs. forward_lines macs snap) e
          ∙ forward_lines-eq (us ++ d.mac_address ∷ vs) snap
          ∙ ap (λ l. opening ++ l) (drops-split us vs d.mac_address (closing snap)),
    )

-- What becomes of a packet.
pub data Verdict : Type 0 where
  accepted dropped : Verdict

-- nft, as far as the lines before the dispatch need it: what a line does with a packet, if it decides
-- about it, by the packet's state of connection and its sender's address in lower case.
pub record Nft : Type 1 where
  pub Packet : Type 0
  pub is_established : Packet → Bool
  pub sender : Packet → Text
  pub verdict : Text → Packet → Option Verdict

pub record NftLaws (nft : Nft) : Type 0 where
  pub chain_line : (p : nft.Packet) → nft.verdict (codes "    chain forward {") p ≡ none
  pub hook_line :
      (p : nft.Packet)
      → nft.verdict (codes "        type filter hook forward priority filter; policy drop;") p
        ≡ none
  pub state_line :
      (p : nft.Packet)
      → nft.verdict (codes "        ct state established,related accept") p
        ≡ (if nft.is_established p then some accepted else none)
  pub ether_line :
      (mac : Text) (p : nft.Packet)
      → nft.verdict (codes "        ether saddr " ++ to_lower mac ++ codes " drop") p
        ≡ (if text_eq (nft.sender p) (to_lower mac) then some dropped else none)

if-some :
    (b : Bool)
    → (if b then some accepted else some dropped) ≡ some (if b then accepted else dropped)
if-some true = refl
if-some false = refl

module _ (nft : Nft) where
  -- The first line that decides about a packet decides.
  abbrev pub first_verdict : List Text → nft.Packet → Option Verdict
  first_verdict [] p = none
  first_verdict (l ∷ ls) p =
      let rest = first_verdict ls p in elim (nft.verdict l p) [ none ↦ rest | some v ↦ some v ]

  module _ (laws : NftLaws nft) (p : nft.Packet) where
    drops-verdict :
        (macs : List Text) (mac : Text) (rest : List Text)
        → nft.sender p ≡ to_lower mac
        → first_verdict (map drop_line macs ++ drop_line mac ∷ rest) p ≡ some dropped
    drops-verdict [] mac rest e =
        let own : nft.verdict (drop_line mac) p ≡ some dropped =
          (laws.ether_line mac p ∙ rw e (rw (text_eq_refl (to_lower mac)) refl)) in
        rw own refl
    drops-verdict (k ∷ macs) mac rest e = elim (Bool-cases (text_eq (nft.sender p) (to_lower k))) [
      | inl f ↦
          let own : nft.verdict (drop_line k) p ≡ some dropped =
            (laws.ether_line k p ∙ rw f refl) in
          rw own refl
      | inr f ↦
          let own : nft.verdict (drop_line k) p ≡ none = (laws.ether_line k p ∙ rw f refl) in
          rw own (drops-verdict macs mac rest e)
    ]

    opening-verdict :
        (rest : List Text)
        → first_verdict (opening ++ rest) p
          ≡ (if nft.is_established p then some accepted else first_verdict rest p)
    opening-verdict rest = elim (Bool-cases (nft.is_established p)) [
      | inl e ↦
          let own = (rw e at (laws.state_line p)) in
          rw (laws.chain_line p) (rw (laws.hook_line p) (rw own (rw e refl)))
      | inr e ↦
          let own = (rw e at (laws.state_line p)) in
          rw (laws.chain_line p) (rw (laws.hook_line p) (rw own (rw e refl)))
    ]

    -- In the forward chain the first line that decides about a packet of a blocked device, whose
    -- address is valid, drops the packet, unless the packet belongs to an established or related
    -- connection, which is accepted. It takes of nft what it does on the lines of the chain's opening
    -- and on a line that drops an address.
    pub forward_lines-first_verdict :
        (s : Db) (snap : PolicySnapshot) (d : Device)
        → In d s.devices
        → d.is_blocked ≡ true
        → valid_mac d.mac_address ≡ true
        → nft.sender p ≡ to_lower d.mac_address
        → first_verdict (forward_lines (blocked_macs s) snap) p
          ≡ some (if nft.is_established p then accepted else dropped)
    forward_lines-first_verdict s snap d m b v e =
        let (macs, rest, same) = forward_lines-drop_line s snap d m b v in
        let blocked = drops-verdict macs d.mac_address rest e in
        rw same (
          opening-verdict (map drop_line macs ++ drop_line d.mac_address ∷ rest)
          ∙ rw blocked (if-some (nft.is_established p)))
