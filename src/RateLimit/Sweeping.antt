-- ===== src/RateLimit/Sweeping.antt =====
-- Stores that differ by lapsed entries only.
use iceberg_sst.Prelude.{
  ℕ, ◌≤◌, Bool, true, false, Option, none, some, List, [], ◌∷◌, String, ◌≡◌, refl, string_eq,
  if◌then◌else◌, ltb, leb, length, Bool-cases, inl, inr, arith, ap, sym, ◌∙◌, ◌==◌, subst,
}
use iceberg_sst.Prelude.Dicts.{lookup, insert, IsDict, lookup-insert, insert-IsDict}
use iceberg_sst.RateLimit.{Hit, Windows, expires_at, swept, next_count, decide, hit, run}

-- What an entry still says at `now`.
abbrev pub live : ℕ → Option (ℕ × ℕ) → Option (ℕ × ℕ)
live now none = none
live now (some (expiry, count)) = if ltb now expiry then some (expiry, count) else none

-- Two stores say the same from `now` on.
abbrev Agree : ℕ → Windows → Windows → Type 0
Agree now v w = (k : String) → live now (lookup k v) ≡ live now (lookup k w)

next_count-live : (now : ℕ) (o : Option (ℕ × ℕ)) → next_count now o ≡ next_count now (live now o)
next_count-live now none = refl
next_count-live now (some (expiry, count)) = ground arith

live_later :
    (now later : ℕ) (o p : Option (ℕ × ℕ))
    → now ≤ later
    → live now o ≡ live now p
    → live later o ≡ live later p
live_later now later none none le e = refl
live_later now later none (some (expiry, count)) le e = ground arith
live_later now later (some (expiry, count)) none le e = ground arith
live_later now later (some (expiry, count)) (some (expiry', count')) le e = ground arith

pub lookup-swept-none :
    (now : ℕ) (k : String) (w : Windows) → lookup k w ≡ none → lookup k (swept now w) ≡ none
unfolding lookup
lookup-swept-none now k [] e = refl
lookup-swept-none now k ((j, (expiry, count)) ∷ w) e = ground (arith, lookup-swept-none now k w)

swept-IsDict : (now : ℕ) (w : Windows) → IsDict w → IsDict (swept now w)
swept-IsDict now [] d = tt
swept-IsDict now ((j, (expiry, count)) ∷ w) d = elim (Bool-cases (ltb now expiry)) [
  | inl kept ↦ rw kept (lookup-swept-none now j w d.0, swept-IsDict now w d.1)
  | inr lapsed ↦ rw lapsed (swept-IsDict now w d.1)
]

pub lookup-swept :
    (now : ℕ) (k : String) (w : Windows) → IsDict w → lookup k (swept now w) ≡ live now (lookup k w)
unfolding lookup
lookup-swept now k [] d = refl
lookup-swept now k ((j, (expiry, count)) ∷ w) d =
    ground (arith, lookup-swept now k w d.1, lookup-swept-none now k w, string_eq.beq_iff j k, d.0)

live_twice : (now : ℕ) (o : Option (ℕ × ℕ)) → live now (live now o) ≡ live now o
live_twice now none = refl
live_twice now (some (expiry, count)) = ground arith

live-swept :
    (now : ℕ) (k : String) (w : Windows)
    → IsDict w
    → live now (lookup k (swept now w)) ≡ live now (lookup k w)
live-swept now k w d = ap (live now) (lookup-swept now k w d) ∙ live_twice now (lookup k w)

abbrev pub kept : ℕ → ℕ → Windows → Windows
kept threshold now w = if leb threshold (length w) then swept now w else w

kept-Agree : (threshold now : ℕ) (w : Windows) → IsDict w → Agree now (kept threshold now w) w
kept-Agree threshold now w d k = case (leb threshold (length w))
  where
    case : (b : Bool) → live now (lookup k (if b then swept now w else w)) ≡ live now (lookup k w)
    case true = live-swept now k w d
    case false = refl

pub kept-IsDict : (threshold now : ℕ) (w : Windows) → IsDict w → IsDict (kept threshold now w)
kept-IsDict threshold now w d = case (leb threshold (length w))
  where
    case : (b : Bool) → IsDict (if b then swept now w else w)
    case true = swept-IsDict now w d
    case false = d

insert-Agree :
    (now : ℕ) (key : String) (entry : ℕ × ℕ) (v w : Windows)
    → Agree now v w
    → Agree now (insert key entry v) (insert key entry w)
insert-Agree now key entry v w agree k =
    ap (live now) (lookup-insert key k entry v)
    ∙ case (key == k)
    ∙ sym (ap (live now) (lookup-insert key k entry w))
  where
    case :
        (b : Bool)
        → live now (if b then some entry else lookup k v)
          ≡ live now (if b then some entry else lookup k w)
    case true = refl
    case false = agree k

-- Two stores that say the same, whatever their thresholds, count a call the same and say the same after it.
hit_agrees :
    (n m : ℕ) (h : Hit) (v w : Windows)
    → IsDict v
    → IsDict w
    → Agree h.now v w
    → ((hit n h v).1 ≡ (hit m h w).1)
      × Agree h.now (hit n h v).0 (hit m h w).0
      × IsDict (hit n h v).0
      × IsDict (hit m h w).0
unfolding hit
hit_agrees n m h v w d e agree =
    let v' = kept n h.now v in
    let w' = kept m h.now w in
    let same : Agree h.now v' w' =
      λ k. kept-Agree n h.now v d k ∙ agree k ∙ sym (kept-Agree m h.now w e k) in
    let counts : next_count h.now (lookup h.key v') ≡ next_count h.now (lookup h.key w') =
      next_count-live h.now (lookup h.key v')
      ∙ ap (next_count h.now) (same h.key)
      ∙ sym (next_count-live h.now (lookup h.key w')) in
    (
      ap (decide h) counts,
      subst
          (λ c.
            Agree h.now (insert h.key (expires_at h, next_count h.now (lookup h.key v')) v')
              (insert h.key (expires_at h, c) w'))
          counts
          (insert-Agree h.now h.key (expires_at h, next_count h.now (lookup h.key v')) v' w' same),
      insert-IsDict h.key _ v' (kept-IsDict n h.now v d),
      insert-IsDict h.key _ w' (kept-IsDict m h.now w e),
    )

-- The clock of a sequence of calls does not run back.
abbrev pub IsOrdered : ℕ → List Hit → Type 0
IsOrdered now [] = Unit
IsOrdered now (h ∷ hits) = (now ≤ h.now) × IsOrdered h.now hits

run_agrees :
    (n m now : ℕ) (hits : List Hit) (v w : Windows)
    → IsOrdered now hits
    → IsDict v
    → IsDict w
    → Agree now v w
    → run n hits v ≡ run m hits w
unfolding run
run_agrees n m now [] v w ordered d e agree = refl
run_agrees n m now (h ∷ hits) v w ordered d e agree =
    let (same, agree', d', e') =
      hit_agrees n m h v w d e (λ k. live_later now h.now _ _ ordered.0 (agree k)) in
    ap (λ x. x ∷ run n hits (hit n h v).0) same
    ∙ ap (λ l. (hit m h w).1 ∷ l)
        (run_agrees n m h.now hits (hit n h v).0 (hit m h w).0 ordered.1 d' e' agree')

-- Where the clock readings do not run back from call to call, a new store gives the same decisions to every sequence of calls
-- whatever the number of entries that it tolerates before a sweep.
pub run_swept : (n m : ℕ) (hits : List Hit) → IsOrdered 0 hits → run n hits [] ≡ run m hits []
run_swept n m hits ordered = run_agrees n m 0 hits [] [] ordered tt tt (λ k. refl)
