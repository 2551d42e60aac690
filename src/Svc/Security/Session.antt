-- ===== src/Svc/Security/Session.antt =====
-- Which answer IsAnInteractiveSession finds among the groups of the token.
use winsvc.Prelude.{
  refl, ℕ, ◌≡◌, ◌≢◌, ◌⊎◌, ap, inl, inr, Bool, true, false, not, List, [], ◌∷◌, ◌++◌, All, arith,
  ◌==◌, if◌then◌else◌, Bool-cases, ◌≤◌, length, ltb,
}
use winsvc.Winapi.System.{Call, Os, Trace, Outcome, ok, err, panic}
use winsvc.Winapi.Types.{Tokengroups}
use winsvc.Svc.Security.{search_groups, scan_groups}
use winsvc.Svc.Security.Tokens.{asked}

-- EqualSid answers whether two SIDs hold the same, where these addresses are those of valid SIDs and
-- have these contents.
abbrev pub ComparesSids : Os → (IsSid : ℕ → Type 0) → (contents : ℕ → List ℕ) → Type 0
ComparesSids os IsSid contents =
    (t : Trace) (a b : ℕ)
    → IsSid a
    → IsSid b
    → ((os t (Call.equal_sid a b)).r0 ≢ 0 → contents a ≡ contents b)
      × ((os t (Call.equal_sid a b)).r0 ≡ 0 → contents a ≢ contents b)

module _ (contents : ℕ → List ℕ) where
  -- Neither SID is among these groups.
  abbrev pub Lacks : (a b : ℕ) → List ℕ → Type 0
  Lacks a b = All (λ g. (contents g ≢ contents a) × (contents g ≢ contents b))

  -- What the answer says of the groups: a comes first of the two, or it does not.
  abbrev pub Verdict : (groups : List ℕ) (a b : ℕ) → Outcome Bool → Type 0
  Verdict groups a b (ok true) =
      (pre : List ℕ) × (g : ℕ) × (post : List ℕ) × (groups ≡ pre ++ g ∷ post)
      × (contents g ≡ contents a)
      × Lacks a b pre
  Verdict groups a b (ok false) =
      ((pre : List ℕ) × (g : ℕ) × (post : List ℕ) × (groups ≡ pre ++ g ∷ post)
        × (contents g ≡ contents b)
        × (contents g ≢ contents a)
        × Lacks a b pre)
      ⊎ Lacks a b groups
  Verdict groups a b (err e) = ⊥
  Verdict groups a b panic = ⊥

  Verdict-cons :
      (g : ℕ) (groups : List ℕ) (a b : ℕ)
      → contents g ≢ contents a
      → contents g ≢ contents b
      → (r : Outcome Bool) → Verdict groups a b r
      → Verdict (g ∷ groups) a b r
  Verdict-cons g groups a b p q (ok true) (pre, h, post, e, s, k) =
      (g ∷ pre, h, post, ap (λ l. g ∷ l) e, s, ((p, q), k))
  Verdict-cons g groups a b p q (ok false) (inl (pre, h, post, e, s, n, k)) =
      inl (g ∷ pre, h, post, ap (λ l. g ∷ l) e, s, n, ((p, q), k))
  Verdict-cons g groups a b p q (ok false) (inr k) = inr ((p, q), k)
  Verdict-cons g groups a b p q (err e) v = v
  Verdict-cons g groups a b p q panic v = v

search_groups_step :
    (os : Os) (a b g : ℕ) (groups : List ℕ) (t : Trace)
    → (search_groups (g ∷ groups) a b os t).0 ≡ (
        if not ((os t (Call.equal_sid g a)).r0 == 0)
        then ok true
        else if not ((os (asked os t g a) (Call.equal_sid g b)).r0 == 0)
        then ok false
        else (search_groups groups a b os (asked os (asked os t g a) g b)).0)
unfolding search_groups
search_groups_step os a b g groups t = ground arith

module _ (os : Os) (IsSid : ℕ → Type 0) (contents : ℕ → List ℕ)
    (compares : ComparesSids os IsSid contents) (a b : ℕ) (sid_a : IsSid a) (sid_b : IsSid b) where
  search_groups-Verdict :
      (groups : List ℕ) (t : Trace)
      → All IsSid groups
      → Verdict contents groups a b (search_groups groups a b os t).0
  unfolding search_groups
  search_groups-Verdict [] t sids = inr tt
  search_groups-Verdict (g ∷ groups) t (sid, sids) =
      let (is_a, not_a) = compares t g a sid sid_a in
      let (is_b, not_b) = compares (asked os t g a) g b sid sid_b in
      rw (search_groups_step os a b g groups t)
        (elim (Bool-cases ((os t (Call.equal_sid g a)).r0 == 0)) [
          | inr n ↦ rw n ([], g, groups, refl, is_a (ground arith), tt)
          | inl e ↦ elim (Bool-cases ((os (asked os t g a) (Call.equal_sid g b)).r0 == 0)) [
            | inr m ↦
                rw (e, m) (inl ([], g, groups, refl, is_b (ground arith), not_a (ground arith), tt))
            | inl m ↦
                rw (e, m)
                  (Verdict-cons contents g groups a b (not_a (ground arith)) (not_b (ground arith))
                    _ (search_groups-Verdict groups (asked os (asked os t g a) g b) sids))
          ]
        ])

not_too_many : (groups : List ℕ) → length groups ≤ 0x200000 → ltb 0x200000 (length groups) ≡ false
not_too_many groups h = ground arith

-- Where EqualSid tells whether two SIDs hold the same, and the token has at most 2^21 groups, which
-- are valid SIDs as the two that are looked for, the loop over the groups ends with an answer: true
-- if a group holds the interactive SID and no group before it holds that or the service SID, false
-- if a group holds the service SID and not the interactive one and no group before it holds either,
-- or if no group holds either.
pub scan_groups-Verdict :
    (os : Os) (IsSid : ℕ → Type 0) (contents : ℕ → List ℕ) (gs : Tokengroups)
    (inter_sid service_sid : ℕ) (t : Trace)
    → ComparesSids os IsSid contents
    → IsSid inter_sid
    → IsSid service_sid
    → All IsSid gs.groups
    → length gs.groups ≤ 0x200000
    → Verdict contents gs.groups inter_sid service_sid (scan_groups gs inter_sid service_sid os t).0
unfolding scan_groups
scan_groups-Verdict os IsSid contents gs a b t compares sid_a sid_b sids h =
    rw (not_too_many gs.groups h)
      (search_groups-Verdict os IsSid contents compares a b sid_a sid_b gs.groups t sids)
