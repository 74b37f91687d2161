-- ===== src/Domain/Equal.antt =====
-- Which domains `equalDomain` takes for a host's.
use vweb.Common.{
  ℕ, zero, suc, ◌≤◌, ◌<◌, ◌≡◌, ◌↔◌, refl, sym, ap, ◌∙◌, Bool, true, false, Option, none, some, [],
  arith, Bytes, same, same_iff, length, Bool-cases, Option-cases, inl, inr, codes, ◌∷◌, ◌++◌,
  append-nil, index, index-Lacks, index-append, take-append_length, drop-append_length, drop, split,
  join, Lacks,
}
use vweb.Domain.{split_port, visit, derogatory_domain, equal_domain}
use vweb.Domain.Wildcards.{
  labels_of, stars, starred, candidate, candidate_pos, Outcome, derogatory_domain-host,
  derogatory_domain-visit, visit-host,
}

module _ (host domain : Bytes) where
  abbrev met : Bytes → Bool
  met d = same d domain

  abbrev equal_of : Option Bytes → Bool
  equal_of none = false
  equal_of (some d) = true

  equal_domain_lem : equal_domain host domain ≡ equal_of (derogatory_domain host met)
  unfolding equal_domain
  equal_domain_lem = elim (Option-cases (derogatory_domain host met)) [
    | inl none_found ↦ rw (none_found, equal_domain)
    | inr (d, found) ↦ rw (found, equal_domain)
  ]

  abbrev Matches : Type 0
  Matches = (n : ℕ) × (n ≤ length (labels_of host)) × (domain ≡ candidate host n)

  matches_of_Outcome :
      (o : Option Bytes)
      → Outcome met (split_port host).1 (labels_of host) 0 o
      → equal_of o ≡ true
      → Matches
  matches_of_Outcome none h e = absurd (cc)
  matches_of_Outcome (some d) h e =
      let same_name = sym ((same_iff d domain).0 h.accepted) ∙ h.named in
      (h.count, h.within, same_name ∙ candidate_pos host h.count h.above)

  equal_of-Outcome :
      (o : Option Bytes) (n : ℕ)
      → Outcome met (split_port host).1 (labels_of host) 0 o
      → n < length (labels_of host)
      → domain ≡ starred host (suc n)
      → equal_of o ≡ true
  equal_of-Outcome (some d) n h within e = refl
  equal_of-Outcome none n h within e =
      absurd (cc (h (suc n) (omega arith) within, (same_iff _ domain).1 (sym e)))

  equal_sound : equal_domain host domain ≡ true → Matches
  equal_sound h = elim (Bool-cases (same host domain)) [
    | inl exact ↦ (0, omega arith, sym ((same_iff host domain).0 exact))
    | inr other ↦
        matches_of_Outcome _ (visit-host host met)
          (ap equal_of (sym (derogatory_domain-visit host met other)) ∙ sym equal_domain_lem ∙ h)
  ]

  equal_at :
      (n : ℕ)
      → n ≤ length (labels_of host)
      → domain ≡ candidate host n
      → same host domain ≡ false
      → equal_of (visit met (split_port host).1 [] (labels_of host)) ≡ true
  equal_at zero within e other = absurd (cc (other, (same_iff host domain).1 (sym e)))
  equal_at (suc n) within e other = equal_of-Outcome _ n (visit-host host met) within e

  equal_complete :
      (n : ℕ)
      → n ≤ length (labels_of host)
      → domain ≡ candidate host n
      → equal_domain host domain ≡ true
  equal_complete n within e = elim (Bool-cases (same host domain)) [
    | inl exact ↦ equal_domain_lem ∙ ap equal_of (derogatory_domain-host host met exact)
    | inr other ↦
        equal_domain_lem
        ∙ ap equal_of (derogatory_domain-visit host met other)
        ∙ equal_at n within e other
  ]

equal_domain-candidate :
    (host domain : Bytes)
    → (equal_domain host domain ≡ true)
      ↔ ((n : ℕ) × (n ≤ length (labels_of host)) × (domain ≡ candidate host n))
equal_domain-candidate host domain = (
  equal_sound host domain,
  λ (h : (n : ℕ) × (n ≤ length (labels_of host)) × (domain ≡ candidate host n)).
      equal_complete host domain h.0 h.1 h.2,
)

-- Nothing, or a text that begins with a colon.
abbrev pub IsPort : Bytes → Type 0
IsPort [] = Unit
IsPort (c ∷ s) = c ≡ b':'

split_port-append :
    (name port : Bytes) → Lacks b':' name → IsPort port → split_port (name ++ port) ≡ (name, port)
unfolding split_port
split_port-append name [] h p =
    let none_found : index (name ++ []) (codes ":") ≡ none =
      ap (λ t. index t (codes ":")) (append-nil name) ∙ index-Lacks name b':' h in
    rw (none_found, split_port) (ap (λ t. (t, [])) (append-nil name))
split_port-append name (c ∷ s) h p =
    let found : index (name ++ c ∷ s) (codes ":") ≡ some (length name) =
      ap (λ d. index (name ++ d ∷ s) (codes ":")) p ∙ index-append name b':' s h in
    rw (found, split_port, take-append_length name (c ∷ s), drop-append_length name (c ∷ s))

-- A name with its first n labels replaced by "*", and the port.
abbrev pub with_stars : (name port : Bytes) → ℕ → Bytes
with_stars name port zero = name ++ port
with_stars name port (suc k) = join (stars (suc k) ++ drop (suc k) (split name b'.')) b'.' ++ port

with_stars-candidate :
    (name port : Bytes) (n : ℕ)
    → split_port (name ++ port) ≡ (name, port)
    → candidate (name ++ port) n ≡ with_stars name port n
with_stars-candidate name port zero e = refl
with_stars-candidate name port (suc k) e = rw e

-- A domain is taken for the host of a name without a colon and of a port, which is empty or begins
-- with one, exactly if it is that host, or the name with its first n labels, the texts between its
-- dots, replaced by "*" for an n up to the number of labels, with the same port behind it.
pub equal_domain_iff :
    (name port domain : Bytes)
    → Lacks b':' name
    → IsPort port
    → (equal_domain (name ++ port) domain ≡ true)
      ↔ ((n : ℕ) × (n ≤ length (split name b'.')) × (domain ≡ with_stars name port n))
equal_domain_iff name port domain h p =
    let e = split_port-append name port h p in
    let (to, from) = equal_domain-candidate (name ++ port) domain in
    let same_labels : labels_of (name ++ port) ≡ split name b'.' = ap (λ q. split q.0 b'.') e in
    (
      λ x.
          let (n, within, named) = to x in
          (n, rw same_labels at within, named ∙ with_stars-candidate name port n e),
      λ (x : (n : ℕ) × (n ≤ length (split name b'.')) × (domain ≡ with_stars name port n)).
          let (n, within, named) = x in
          from (n, rw same_labels within, named ∙ sym (with_stars-candidate name port n e)),
    )
