-- ===== src/Acl.antt =====
-- The access control list of src/acl.rs. Networks and addresses belong to `ipnet` and `std::net`:
-- their type, `parse` and `contains` are parameters.
pub mod Laws
use rustblocker.Base.{
  ℕ, Bool, true, false, Option, none, some, List, [], ◌∷◌, Bytes, trim, is_empty, any, ◌==◌,
  if◌then◌else◌,
}

unfoldable pub attach : ℕ → List Bytes → List Bytes
attach c [] = (c ∷ []) ∷ []
attach c (piece ∷ pieces) = (c ∷ piece) ∷ pieces

-- `split(',')`: the pieces between the commas, at least one.
unfoldable pub split_commas : Bytes → List Bytes
split_commas [] = [] ∷ []
split_commas (c ∷ s) = let rest = split_commas s in if c == b',' then [] ∷ rest else attach c rest

module _ (IpNet : Type 0) (parse_net : Bytes → Option IpNet) (contains : IpNet → ℕ → Bool) where
  pub record Acl : Type 0 where
    pub networks : List IpNet

  abbrev pub default_acl : Acl
  default_acl = record { networks = [] }

  -- The loop of `parse`: the networks of all pieces, or an error.
  unfoldable pub parse_nets : List Bytes → Option (List IpNet)
  parse_nets [] = some []
  parse_nets (piece ∷ pieces) = elim (parse_net (trim piece)) [
    | none ↦ none
    | some net ↦ elim (parse_nets pieces) [ none ↦ none | some nets ↦ some (net ∷ nets) ]
  ]

  -- `none` is the error "invalid CIDR".
  unfoldable pub parse_acl : Bytes → Option Acl
  parse_acl cidr_list =
      if is_empty (trim cidr_list)
      then some default_acl
      else elim (parse_nets (split_commas cidr_list)) [
        | none ↦ none
        | some nets ↦ some (record { networks = nets })
      ]

  unfoldable pub is_allowed : Acl → ℕ → Bool
  is_allowed acl addr =
      if is_empty acl.networks then true else any (λ net. contains net addr) acl.networks
