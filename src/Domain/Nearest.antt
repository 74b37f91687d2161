-- ===== src/Domain/Nearest.antt =====
-- Which site `SiteMan.Get` returns.
use vweb.Common.{
  ℕ, zero, suc, ◌≤◌, ◌<◌, ◌≡◌, ◌↔◌, sym, ap, ◌∙◌, false, Option, none, some, List, [], arith, Bytes,
  length, lookup, Option-cases, inl, inr, some_inj, ◌⊎◌,
}
use vweb.Domain.{split_port, visit, derogatory_domain, has, get_derogatory, get}
use vweb.Domain.Wildcards.{
  labels_of, starred, candidate, candidate_pos, Outcome, derogatory_domain-visit, visit-host,
}

-- The search for the site of a host.
module _ {S : Type 0} (sites : List (Bytes × S)) (host : Bytes) where
  -- A place among the candidates with this site, and no site at the places before.
  pub record IsNearest (site : S) (n : ℕ) : Type 0 where
    pub within : n ≤ length (labels_of host)
    pub held : lookup (candidate host n) sites ≡ some site
    pub before : (j : ℕ) → j < n → lookup (candidate host j) sites ≡ none

  has-eq-false : (d : Bytes) → has sites d ≡ false → lookup d sites ≡ none
  has-eq-false d h = ground arith

  abbrev site_of : Option Bytes → Option S
  site_of none = none
  site_of (some d) = lookup d sites

  get_derogatory_lem : get_derogatory sites host ≡ site_of (derogatory_domain host (has sites))
  unfolding get_derogatory
  get_derogatory_lem = elim (Option-cases (derogatory_domain host (has sites))) [
    | inl none_found ↦ rw (none_found, get_derogatory)
    | inr (d, found) ↦ rw (found, get_derogatory)
  ]

  get_missing :
      lookup host sites ≡ none
      → get sites host ≡ site_of (visit (has sites) (split_port host).1 [] (labels_of host))
  unfolding get
  get_missing e =
      let absent : has sites host ≡ false = rw (e, has) in
      rw (e, get)
        (get_derogatory_lem ∙ ap site_of (derogatory_domain-visit host (has sites) absent))

  before_of :
      (n : ℕ)
      → lookup host sites ≡ none
      → ((j : ℕ) → 0 < j → j < n → has sites (starred host j) ≡ false)
      → (j : ℕ) → j < n
      → lookup (candidate host j) sites ≡ none
  before_of n e h zero below = e
  before_of n e h (suc j) below =
      has-eq-false (starred host (suc j)) (h (suc j) (omega arith) below)

  IsNearest-of_Outcome :
      (o : Option Bytes) (site : S)
      → lookup host sites ≡ none
      → Outcome (has sites) (split_port host).1 (labels_of host) 0 o
      → site_of o ≡ some site
      → (n : ℕ) × IsNearest site n
  IsNearest-of_Outcome none site e h eq = absurd (cc)
  IsNearest-of_Outcome (some d) site e h eq = (
    h.count,
    record {
      within = h.within;
      held = rw (← candidate_pos host h.count h.above, ← h.named) eq;
      before = before_of h.count e h.before;
    },
  )

  get_sound : (site : S) → get sites host ≡ some site → (n : ℕ) × IsNearest site n
  unfolding get
  get_sound site h = elim (Option-cases (lookup host sites)) [
    | inr (s, here) ↦ (
      0,
      record {
        within = omega arith;
        held = here ∙ (rw (here, get) at h);
        before = λ j below. absurd (omega arith);
      },
    )
    | inl missing ↦
        IsNearest-of_Outcome _ site missing (visit-host host (has sites))
          (sym (get_missing missing) ∙ h)
  ]

  none_of_Outcome :
      (o : Option Bytes)
      → lookup host sites ≡ none
      → Outcome (has sites) (split_port host).1 (labels_of host) 0 o
      → site_of o ≡ none
      → (n : ℕ) → n ≤ length (labels_of host)
      → lookup (candidate host n) sites ≡ none
  none_of_Outcome none e h eq n within =
      before_of (suc n) e (λ j above below. h j above (omega arith)) n (omega arith)
  none_of_Outcome (some d) e h eq n within = absurd (cc (rw (eq, has) at h.accepted))

  get-none :
      get sites host ≡ none
      → (n : ℕ) → n ≤ length (labels_of host)
      → lookup (candidate host n) sites ≡ none
  unfolding get
  get-none h n within = elim (Option-cases (lookup host sites)) [
    | inr (s, here) ↦ absurd (cc (rw (here, get) at h))
    | inl missing ↦
        none_of_Outcome _ missing (visit-host host (has sites)) (sym (get_missing missing) ∙ h) n
          within
  ]

  order : (n m : ℕ) → (n < m) ⊎ (n ≡ m) ⊎ (m < n)
  order n m = omega arith

  nearest_unique : {s t : S} {n m : ℕ} → IsNearest s n → IsNearest t m → s ≡ t
  nearest_unique {n} {m} a b = elim (order n m) [
    | inl less ↦ absurd (cc (a.held, b.before n less))
    | inr (inl e) ↦ some_inj (sym a.held ∙ ap (λ k. lookup (candidate host k) sites) e ∙ b.held)
    | inr (inr more) ↦ absurd (cc (b.held, a.before m more))
  ]

  get_complete : (site : S) (n : ℕ) → IsNearest site n → get sites host ≡ some site
  get_complete site n near = elim (Option-cases (get sites host)) [
    | inl missing ↦ absurd (cc (near.held, get-none missing n near.within))
    | inr (s, found) ↦ found ∙ ap some (nearest_unique (get_sound s found).1 near)
  ]

-- The site of a host is that of its exact name, and else of the name with the fewest wildcards that
-- the map holds: `Get` returns a site exactly if it is the site of one of the names, up to as many
-- stars as the host has labels, and none of the names before has a site.
pub get_iff :
    {S : Type 0} (sites : List (Bytes × S)) (host : Bytes) (site : S)
    → (get sites host ≡ some site) ↔ ((n : ℕ) × IsNearest sites host site n)
get_iff sites host site = (
  get_sound sites host site,
  λ (h : (n : ℕ) × IsNearest sites host site n). get_complete sites host site h.0 h.1,
)
