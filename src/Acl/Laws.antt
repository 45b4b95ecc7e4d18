-- ===== src/Acl/Laws.antt =====
-- Laws of src/acl.rs.
use mathlib.Core.Option.{some-ne-none}
use rustblocker.Base.{
  ℕ, ◌≡◌, refl, sym, ◌∙◌, Bool, false, ◌||◌, Option, none, some, List, [], ◌∷◌, Bytes, trim,
  is_empty, any, All, ◌==◌, Bool-cases, Option-cases, inl, inr,
}
use rustblocker.Acl.{Acl, attach, split_commas, parse_nets, parse_acl, is_allowed}

module _ (IpNet : Type 0) (parse_net : Bytes → Option IpNet) (contains : IpNet → ℕ → Bool) where
  abbrev pub holds_in : Option IpNet → ℕ → Bool
  holds_in none addr = false
  holds_in (some net) addr = contains net addr

  -- Some piece parses to a network that contains the address.
  abbrev pub is_listed : List Bytes → ℕ → Bool
  is_listed [] addr = false
  is_listed (piece ∷ pieces) addr = holds_in (parse_net (trim piece)) addr || is_listed pieces addr

  abbrev pub ParsesNet : Bytes → Type 0
  ParsesNet piece = (net : IpNet) × (parse_net (trim piece) ≡ some net)

  abbrev Parsed : List Bytes → Option (List IpNet) → Type 0
  Parsed pieces none = ¬ (All ParsesNet pieces)
  Parsed pieces (some nets) =
      (is_empty nets ≡ is_empty pieces)
      × ((addr : ℕ) → any (λ net. contains net addr) nets ≡ is_listed pieces addr)

  more-Parsed :
      (piece : Bytes) (pieces : List Bytes) (net : IpNet)
      → parse_net (trim piece) ≡ some net
      → (r : Option (List IpNet)) → Parsed pieces r
      → Parsed (piece ∷ pieces) (elim r [ none ↦ none | some nets ↦ some (net ∷ nets) ])
  more-Parsed piece pieces net e none k = λ all. k all.1
  more-Parsed piece pieces net e (some nets) (same, k) = (refl, λ addr. rw (e, k addr) refl)

  parse_nets-Parsed :
      (pieces : List Bytes) → Parsed pieces (parse_nets IpNet parse_net contains pieces)
  unfolding parse_nets
  parse_nets-Parsed [] = (refl, λ addr. refl)
  parse_nets-Parsed (piece ∷ pieces) = elim (Option-cases (parse_net (trim piece))) [
    | inl e ↦ rw (e, parse_nets) (λ k. some-ne-none k.0.0 (sym k.0.1 ∙ e))
    | inr (net, e) ↦
        rw (e, parse_nets)
          (more-Parsed piece pieces net e (parse_nets IpNet parse_net contains pieces)
            (parse_nets-Parsed pieces))
  ]

  split_commas_some : (s : Bytes) → is_empty (split_commas s) ≡ false
  unfolding split_commas attach
  split_commas_some [] = refl
  split_commas_some (c ∷ s) = elim (Bool-cases (c == b',')) [
    | inl comma ↦ rw comma refl
    | inr other ↦ rw other (attached c (split_commas s))
  ]
    where
      attached : (c : ℕ) (pieces : List Bytes) → is_empty (attach c pieces) ≡ false
      attached c [] = refl
      attached c (piece ∷ pieces) = refl

  abbrev pub IsParsed : Bytes → Option (Acl IpNet parse_net contains) → Type 0
  IsParsed cidr_list none =
      (is_empty (trim cidr_list) ≡ false) × ¬ (All ParsesNet (split_commas cidr_list))
  IsParsed cidr_list (some acl) =
      (addr : ℕ)
      → is_allowed IpNet parse_net contains acl addr
        ≡ (is_empty (trim cidr_list) || is_listed (split_commas cidr_list) addr)

  Parsed-of :
      (cidr_list : Bytes)
      → is_empty (trim cidr_list) ≡ false
      → (r : Option (List IpNet)) → parse_nets IpNet parse_net contains (split_commas cidr_list) ≡ r
      → Parsed (split_commas cidr_list) r
      → IsParsed cidr_list (parse_acl IpNet parse_net contains cidr_list)
  unfolding parse_acl is_allowed
  Parsed-of cidr_list text none e k = rw (text, e, parse_acl) (text, k)
  Parsed-of cidr_list text (some nets) e (same, k) =
      rw (text, e, parse_acl) (λ addr. rw (same, split_commas_some cidr_list, text) (k addr))

  -- A blank list allows every address. Any other either is refused, because a piece of it does not
  -- parse, or allows exactly the addresses in the networks that its pieces name; so it never allows
  -- all for want of networks.
  pub parse_acl-IsParsed :
      (cidr_list : Bytes) → IsParsed cidr_list (parse_acl IpNet parse_net contains cidr_list)
  unfolding parse_acl is_allowed
  parse_acl-IsParsed cidr_list = elim (Bool-cases (is_empty (trim cidr_list))) [
    | inl blank ↦ rw blank (λ addr. rw blank refl)
    | inr text ↦ Parsed-of cidr_list text _ refl (parse_nets-Parsed (split_commas cidr_list))
  ]
