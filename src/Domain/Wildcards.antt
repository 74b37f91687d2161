-- ===== src/Domain/Wildcards.antt =====
-- The names that the loop of `derogatoryDomain` tries, and which of them it finds.
use vweb.Common.{
  ℕ, zero, suc, ◌+◌, ◌≤◌, ◌<◌, ◌≡◌, refl, sym, ap, ◌∙◌, Bool, true, false, Option, none, some, List,
  [], ◌∷◌, ◌++◌, append-nil, arith, Bytes, codes, split, join, length, drop, Bool-cases, inl, inr,
  subst, ◌⊎◌,
}
use vweb.Domain.{split_port, visit, derogatory_domain}

abbrev pub stars : ℕ → List Bytes
stars zero = []
stars (suc k) = codes "*" ∷ stars k

abbrev pub labels_of : Bytes → List Bytes
labels_of host = split (split_port host).0 b'.'

-- The host's name with its first k labels replaced by "*", and its port.
abbrev pub starred : Bytes → ℕ → Bytes
starred host k = join (stars k ++ drop k (labels_of host)) b'.' ++ (split_port host).1

-- The names that are tried: the host itself, then with one star, with two, and so on.
abbrev pub candidate : Bytes → ℕ → Bytes
candidate host zero = host
candidate host (suc k) = starred host (suc k)

pub candidate_pos : (host : Bytes) (n : ℕ) → 0 < n → starred host n ≡ candidate host n
candidate_pos host zero h = absurd (omega arith)
candidate_pos host (suc n) h = refl

stars-suc : (k : ℕ) (ls : List Bytes) → stars k ++ codes "*" ∷ ls ≡ stars (suc k) ++ ls
stars-suc zero ls = refl
stars-suc (suc k) ls = ap (λ t. codes "*" ∷ t) (stars-suc k ls)

stars-concat : (k : ℕ) → stars k ++ codes "*" ∷ [] ≡ stars (suc k)
stars-concat k = stars-suc k [] ∙ append-nil _

drop-suc {ℓ} :
    {A : Type ℓ} (k : ℕ) (all : List A) {x : A} {xs : List A}
    → drop k all ≡ x ∷ xs
    → drop (suc k) all ≡ xs
drop-suc zero [] e = cc
drop-suc zero (y ∷ all) e = cc
drop-suc (suc k) [] e = cc
drop-suc (suc k) (y ∷ all) e = drop-suc k all e

-- What the loop has found when it starts behind k stars.
module _ (f : Bytes → Bool) (port : Bytes) (all : List Bytes) where
  abbrev pub tried : ℕ → Bytes
  tried k = join (stars k ++ drop k all) b'.' ++ port

  pub record Found (k : ℕ) (d : Bytes) : Type 0 where
    pub count : ℕ
    pub above : k < count
    pub within : count ≤ length all
    pub named : d ≡ tried count
    pub accepted : f d ≡ true
    pub before : (j : ℕ) → k < j → j < count → f (tried j) ≡ false

  abbrev pub Refused : ℕ → Type 0
  Refused k = (j : ℕ) → k < j → j ≤ length all → f (tried j) ≡ false

  abbrev pub Outcome : ℕ → Option Bytes → Type 0
  Outcome k none = Refused k
  Outcome k (some d) = Found k d

  -- A place above k is the next one or above it.
  next_or_above : (k j : ℕ) → k < j → (suc k ≡ j) ⊎ (suc k < j)
  next_or_above k j h = omega arith

  refuse_next :
      (k j : ℕ)
      → f (tried (suc k)) ≡ false
      → k < j
      → (suc k < j → f (tried j) ≡ false)
      → f (tried j) ≡ false
  refuse_next k j miss h later = elim (next_or_above k j h) [
    | inl e ↦ subst (λ i. f (tried i) ≡ false) e miss
    | inr above ↦ later above
  ]

  Outcome-weaken :
      (k : ℕ) (o : Option Bytes) → f (tried (suc k)) ≡ false → Outcome (suc k) o → Outcome k o
  Outcome-weaken k none miss h = λ j above within. refuse_next k j miss above (λ a. h j a within)
  Outcome-weaken k (some d) miss h = record {
    count = h.count;
    above = omega (arith, h.above);
    within = h.within;
    named = h.named;
    accepted = h.accepted;
    before = λ j above below. refuse_next k j miss above (λ a. h.before j a below);
  }

  visit-Outcome :
      (k : ℕ) (ls : List Bytes)
      → drop k all ≡ ls
      → k + length ls ≡ length all
      → Outcome k (visit f port (stars k) ls)
  unfolding visit
  visit-Outcome k [] e n = λ j above within. absurd (omega arith)
  visit-Outcome k (l ∷ ls) e n =
      let name : join (stars k ++ codes "*" ∷ ls) b'.' ++ port ≡ tried (suc k) =
        ap (λ t. join t b'.' ++ port)
          (stars-suc k ls ∙ ap (λ t. stars (suc k) ++ t) (sym (drop-suc k all e))) in
      elim (Bool-cases (f (join (stars k ++ codes "*" ∷ ls) b'.' ++ port))) [
        | inl met ↦ rw met (record {
          count = suc k;
          above = omega arith;
          within = omega arith;
          named = name;
          accepted = met;
          before = λ j above below. absurd (omega arith);
        })
        | inr miss ↦
            let ih = visit-Outcome (suc k) ls (drop-suc k all e) (omega arith) in
            rw miss (
              Outcome-weaken k _ (ap f (sym name) ∙ miss)
                (subst (λ t. Outcome (suc k) (visit f port t ls)) (sym (stars-concat k)) ih))
      ]

pub derogatory_domain-host :
    (host : Bytes) (f : Bytes → Bool) → f host ≡ true → derogatory_domain host f ≡ some host
unfolding derogatory_domain
derogatory_domain-host host f e = rw (e, derogatory_domain)

pub derogatory_domain-visit :
    (host : Bytes) (f : Bytes → Bool)
    → f host ≡ false
    → derogatory_domain host f ≡ visit f (split_port host).1 [] (labels_of host)
unfolding derogatory_domain
derogatory_domain-visit host f e = rw (e, derogatory_domain)

pub visit-host :
    (host : Bytes) (f : Bytes → Bool)
    → Outcome f
        (split_port host).1
        (labels_of host)
        0
        (visit f (split_port host).1 [] (labels_of host))
visit-host host f =
    visit-Outcome f (split_port host).1 (labels_of host) 0 (labels_of host) refl (omega arith)
