-- ===== src/Forwarder/Laws/Config.antt =====
-- The constructors of `ParallelForwarder` (src/forwarder.rs) and `reload`.
use rustblocker.Base.{
  ℕ, suc, ◌*◌, ◌≡◌, refl, sym, ap, ◌∙◌, Bool, true, false, Option, none, some, List, [], ◌∷◌, Bytes,
  arith, All, length, Option-cases, inl, inr,
}
use mathlib.Core.Option.{some-ne-none}
use rustblocker.Forwarder.Labels.{ForwardStrategy}
use rustblocker.Forwarder.{
  UpstreamConfig, UpstreamClient, Forwarder, or_port, clients_of, fresh_health, parse_upstreams,
  new_with_options, reload,
}
use rustblocker.Forwarder.Laws.Health.{IsHealthy, IsSound}

fresh_health-All :
    (cs : List UpstreamClient)
    → All IsHealthy (fresh_health cs) × (length (fresh_health cs) ≡ length cs)
unfolding fresh_health
fresh_health-All [] = (tt, refl)
fresh_health-All (c ∷ cs) = (
  (record { score_word = omega arith; few_failures = omega arith }, (fresh_health-All cs).0),
  ap suc (fresh_health-All cs).1,
)

length-clients_of : (t : ℕ) (bs : List Bytes) → length (clients_of t bs) ≡ length bs
unfolding clients_of
length-clients_of t [] = refl
length-clients_of t (a ∷ bs) = ap suc (length-clients_of t bs)

module _ (parse_socket : Bytes → ℕ → Option Bytes) where
  -- The addresses of all upstreams, in their order.
  abbrev pub AreAddresses : List UpstreamConfig → List Bytes → Type 0
  AreAddresses [] [] = Unit
  AreAddresses [] (a ∷ bs) = ⊥
  AreAddresses (u ∷ us) [] = ⊥
  AreAddresses (u ∷ us) (a ∷ bs) =
      (parse_socket u.address (or_port u.port) ≡ some a) × AreAddresses us bs

  abbrev pub CanParse : UpstreamConfig → Type 0
  CanParse u = (a : Bytes) × (parse_socket u.address (or_port u.port) ≡ some a)

  abbrev Parsed : List UpstreamConfig → Option (List Bytes) → Type 0
  Parsed us none = ¬ (All CanParse us)
  Parsed us (some addresses) = AreAddresses us addresses

  more-Parsed :
      (u : UpstreamConfig) (us : List UpstreamConfig) (a : Bytes)
      → parse_socket u.address (or_port u.port) ≡ some a
      → (r : Option (List Bytes)) → Parsed us r
      → Parsed (u ∷ us) (elim r [ none ↦ none | some rest ↦ some (a ∷ rest) ])
  more-Parsed u us a e none k = λ all. k all.1
  more-Parsed u us a e (some rest) k = (e, k)

  parse_upstreams-Parsed : (us : List UpstreamConfig) → Parsed us (parse_upstreams parse_socket us)
  unfolding parse_upstreams
  parse_upstreams-Parsed [] = tt
  parse_upstreams-Parsed (u ∷ us) = elim (Option-cases (parse_socket u.address (or_port u.port))) [
    | inl e ↦ rw (e, parse_upstreams) (λ k. some-ne-none k.0.0 (sym k.0.1 ∙ e))
    | inr (a, e) ↦
        rw (e, parse_upstreams)
          (more-Parsed u us a e (parse_upstreams parse_socket us) (parse_upstreams-Parsed us))
  ]

  -- A forwarder as its constructor leaves it.
  pub record IsFresh (us : List UpstreamConfig) (timeout_secs : ℕ) (strategy : ForwardStrategy)
      (hedge : ℕ) (f : Forwarder) : Type 0 where
    pub sound : IsSound f
    pub all_there : AreAddresses us f.addresses
    pub one_client_each : f.clients ≡ clients_of (timeout_secs * 1000) f.addresses
    pub in_millis : f.timeout_ms ≡ timeout_secs * 1000
    pub same_strategy : f.strategy ≡ strategy
    pub same_hedge : f.hedge_delay_ms ≡ hedge

  abbrev pub IsBuilt : List UpstreamConfig → ℕ → ForwardStrategy → ℕ → Option Forwarder → Type 0
  IsBuilt us timeout_secs strategy hedge none = ¬ (All CanParse us)
  IsBuilt us timeout_secs strategy hedge (some f) = IsFresh us timeout_secs strategy hedge f

  module _ (us : List UpstreamConfig) (timeout_secs : ℕ) (strategy : ForwardStrategy)
      (hedge : ℕ) where
    IsBuilt-of :
        (r : Option (List Bytes))
        → parse_upstreams parse_socket us ≡ r
        → Parsed us r
        → IsBuilt us timeout_secs strategy hedge
            (new_with_options parse_socket us timeout_secs strategy hedge)
    unfolding new_with_options
    IsBuilt-of none e k = rw (e, new_with_options) k
    IsBuilt-of (some bs) e k =
        rw (e, new_with_options)
          (record {
            sound = record {
              healthy = (fresh_health-All (clients_of (timeout_secs * 1000) bs)).0;
              one_each = (fresh_health-All (clients_of (timeout_secs * 1000) bs)).1;
              addressed = sym (length-clients_of (timeout_secs * 1000) bs);
            };
            all_there = k;
            one_client_each = refl;
            in_millis = refl;
            same_strategy = refl;
            same_hedge = refl;
          })

    -- The constructor fails only when the address of some upstream does not parse; otherwise the
    -- forwarder is sound, has a client for the address of each upstream in their order, and the
    -- timeout, strategy and hedge delay that it was given.
    pub new_with_options-IsBuilt :
        IsBuilt us timeout_secs strategy hedge
          (new_with_options parse_socket us timeout_secs strategy hedge)
    new_with_options-IsBuilt = IsBuilt-of _ refl (parse_upstreams-Parsed us)

    abbrev pub IsReloaded : Forwarder → Forwarder × Bool → Type 0
    IsReloaded f (g, false) = (g ≡ f) × ¬ (All CanParse us)
    IsReloaded f (g, true) =
        IsFresh us timeout_secs strategy hedge g
        × (g.max_adaptive_parallel ≡ f.max_adaptive_parallel)

    IsReloaded-of :
        (f : Forwarder) (r : Option Forwarder)
        → new_with_options parse_socket us timeout_secs strategy hedge ≡ r
        → IsBuilt us timeout_secs strategy hedge r
        → IsReloaded f (reload parse_socket f us timeout_secs strategy hedge)
    unfolding reload
    IsReloaded-of f none e k = rw (e, reload) (refl, k)
    IsReloaded-of f (some g) e k =
        rw (e, reload)
          (
            record {
              sound = record {
                healthy = k.sound.healthy;
                one_each = k.sound.one_each;
                addressed = k.sound.addressed;
              };
              all_there = k.all_there;
              one_client_each = k.one_client_each;
              in_millis = refl;
              same_strategy = refl;
              same_hedge = k.same_hedge;
            },
            refl,
          )

    -- A reload that fails changes nothing and means that some address does not parse; one that
    -- succeeds leaves a forwarder as the constructor builds it, with the old limit on parallel
    -- lookups.
    pub reload-IsReloaded :
        (f : Forwarder) → IsReloaded f (reload parse_socket f us timeout_secs strategy hedge)
    reload-IsReloaded f = IsReloaded-of f _ refl new_with_options-IsBuilt
