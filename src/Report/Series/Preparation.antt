-- ===== src/Report/Series/Preparation.antt =====
-- What `prepareSeries` and the search of `prepareData` produce (dashboard-commons.js under
-- tools/jmeter/results/*-report/content/js).
use Prim.Native.String.{String}
use text.Mathlib.Text.{◌==◌ as str_eq}
use text.Mathlib.TextEquality.{eq_iff}
use mathlib.Core.Path.{subst}
use mathlib.Core.Option.{some-injective}
use mathlib.Core.List.{Memᴰ, Perm}
use mathlib.Core.List.Perm
use high_performance_e_comme.Common.{
  ℕ, suc, ◌≤◌, ◌≡◌, refl, sym, ◌∙◌, inl, inr, Bool, true, false, not, ◌&&◌, ◌||◌, Option, some,
  List, [], ◌∷◌, arith, All, select, Bool-cases, if◌then◌else◌,
}
use high_performance_e_comme.Common.Int.{pos, leb_ℤ}
use high_performance_e_comme.Report.Series.{
  Coord, Series, GraphData, Browser, Filters, compare_by_x, insert_coord, sort_by_x, mark_series,
  filter_series, prepare_series, find_series,
}

-- The abscissas fall from each coordinate to those after it.
abbrev pub IsDescending : List Coord → Type 0
IsDescending [] = Unit
IsDescending (c ∷ cs) = All (λ (d : Coord). d.0 ≤ c.0) cs × IsDescending cs

insert_coord-All :
    (P : Coord → Type 0) (c : Coord) (ds : List Coord) → P c → All P ds → All P (insert_coord c ds)
unfolding insert_coord
insert_coord-All P c [] p h = (p, tt)
insert_coord-All P c (d ∷ ds) p (q, h) = elim (Bool-cases (leb_ℤ (compare_by_x c d) (pos 0))) [
  | inl first ↦ rw first (p, (q, h))
  | inr later ↦ rw later (q, insert_coord-All P c ds p h)
]

All-le :
    (a b : ℕ) (ds : List Coord)
    → a ≤ b
    → All (λ (d : Coord). d.0 ≤ a) ds
    → All (λ (d : Coord). d.0 ≤ b) ds
All-le a b [] h k = tt
All-le a b (d ∷ ds) h (p, k) = (omega arith, All-le a b ds h k)

insert_coord-IsDescending :
    (c : Coord) (ds : List Coord) → IsDescending ds → IsDescending (insert_coord c ds)
unfolding insert_coord
insert_coord-IsDescending c [] h = (tt, tt)
insert_coord-IsDescending c (d ∷ ds) (below, h) =
    elim (Bool-cases (leb_ℤ (compare_by_x c d) (pos 0))) [
      | inl first ↦
          let le : d.0 ≤ c.0 = ground arith in
          rw first ((le, All-le d.0 c.0 ds le below), (below, h))
      | inr later ↦ rw later (
        insert_coord-All (λ (x : Coord). x.0 ≤ d.0) c ds (ground arith) below,
        insert_coord-IsDescending c ds h,
      )
    ]

pub sort_by_x-IsDescending : (cs : List Coord) → IsDescending (sort_by_x cs)
unfolding sort_by_x
sort_by_x-IsDescending [] = tt
sort_by_x-IsDescending (c ∷ cs) =
    insert_coord-IsDescending c (sort_by_x cs) (sort_by_x-IsDescending cs)

insert_coord-perm : (c : Coord) (ds : List Coord) → Perm (insert_coord c ds) (c ∷ ds)
unfolding insert_coord
insert_coord-perm c [] = Perm.refl (c ∷ [])
insert_coord-perm c (d ∷ ds) = elim (Bool-cases (leb_ℤ (compare_by_x c d) (pos 0))) [
  | inl first ↦ rw first (Perm.refl (c ∷ d ∷ ds))
  | inr later ↦ rw later (Perm.trans (Perm.cons d (insert_coord-perm c ds)) (Perm.swap c d ds))
]

sort_by_x-perm : (cs : List Coord) → Perm (sort_by_x cs) cs
unfolding sort_by_x
sort_by_x-perm [] = Perm.refl []
sort_by_x-perm (c ∷ cs) =
    Perm.trans (insert_coord-perm c (sort_by_x cs)) (Perm.cons c (sort_by_x-perm cs))

insert_coord-first :
    (c : Coord) (ds : List Coord) → All (λ (d : Coord). d.0 ≤ c.0) ds → insert_coord c ds ≡ c ∷ ds
unfolding insert_coord
insert_coord-first c [] h = refl
insert_coord-first c (d ∷ ds) h = ground arith

sort_by_x-of_IsDescending : (cs : List Coord) → IsDescending cs → sort_by_x cs ≡ cs
unfolding sort_by_x
sort_by_x-of_IsDescending [] h = refl
sort_by_x-of_IsDescending (c ∷ cs) (below, h) =
    rw (sort_by_x-of_IsDescending cs h) (insert_coord-first c cs below)

mark_series-twice :
    (nm : Bool) (i : ℕ) (ss : List Series)
    → mark_series nm i (mark_series nm i ss) ≡ mark_series nm i ss
unfolding mark_series
mark_series-twice nm i [] = refl
mark_series-twice true i (s ∷ ss) = rw (
  sort_by_x-of_IsDescending (sort_by_x s.points) (sort_by_x-IsDescending s.points),
  mark_series-twice true (suc i) ss,
)
mark_series-twice false i (s ∷ ss) = rw (
  sort_by_x-of_IsDescending (sort_by_x s.points) (sort_by_x-IsDescending s.points),
  mark_series-twice false (suc i) ss,
)

-- The filters read the label and the kind of a series, which marking keeps.
mark_series-All :
    (p : Series → Bool)
    → ((s : Series) (cs : List Coord) (k : Option ℕ)
        → p (record s { points = cs; color = k }) ≡ p s)
    → (nm : Bool) (i : ℕ) (ss : List Series) → All (λ (s : Series). p s ≡ true) ss
    → All (λ (s : Series). p s ≡ true) (mark_series nm i ss)
unfolding mark_series
mark_series-All p same nm i [] h = tt
mark_series-All p same nm i (s ∷ ss) (e, h) =
    (same s _ _ ∙ e, mark_series-All p same nm (suc i) ss h)

select-All {ℓ} : {A : Type ℓ} (p : A → Bool) (xs : List A) → All (λ x. p x ≡ true) (select p xs)
select-All p [] = tt
select-All p (x ∷ xs) = elim (Bool-cases (p x)) [
  | inl keep ↦ rw keep (keep, select-All p xs)
  | inr drop ↦ rw drop (select-All p xs)
]

select-keeps_All {ℓ κ} :
    {A : Type ℓ} (P : A → Type κ) (p : A → Bool) (xs : List A) → All P xs → All P (select p xs)
select-keeps_All P p [] h = tt
select-keeps_All P p (x ∷ xs) (q, h) = elim (Bool-cases (p x)) [
  | inl keep ↦ rw keep (q, select-keeps_All P p xs h)
  | inr drop ↦ rw drop (select-keeps_All P p xs h)
]

select-of_All {ℓ} :
    {A : Type ℓ} (p : A → Bool) (xs : List A) → All (λ x. p x ≡ true) xs → select p xs ≡ xs
select-of_All p [] h = refl
select-of_All p (x ∷ xs) (e, h) = rw (e, select-of_All p xs h)

-- A filter that is on or off.
abbrev select_if : Bool → (Series → Bool) → List Series → List Series
select_if on p ss = if on then select p ss else ss

select_if-twice :
    (on on' : Bool) (p q : Series → Bool) (nm : Bool) (ss : List Series)
    → ((s : Series) (cs : List Coord) (k : Option ℕ)
        → p (record s { points = cs; color = k }) ≡ p s)
    → ((s : Series) (cs : List Coord) (k : Option ℕ)
        → q (record s { points = cs; color = k }) ≡ q s)
    → let once = mark_series nm 0 (select_if on' q (select_if on p ss)) in
      select_if on' q (select_if on p once) ≡ once
select_if-twice true true p q nm ss sp sq =
    let ps = select p ss in
    let both = select q ps in
    let hp =
      mark_series-All p sp nm 0 both (select-keeps_All (λ s. p s ≡ true) q ps (select-All p ss)) in
    let hq = mark_series-All q sq nm 0 both (select-All q ps) in
    rw (select-of_All p (mark_series nm 0 both) hp) (select-of_All q (mark_series nm 0 both) hq)
select_if-twice true false p q nm ss sp sq =
    select-of_All p _ (mark_series-All p sp nm 0 (select p ss) (select-All p ss))
select_if-twice false true p q nm ss sp sq =
    select-of_All q _ (mark_series-All q sq nm 0 (select q ss) (select-All q ss))
select_if-twice false false p q nm ss sp sq = refl

-- Preparing prepared data again, with the same filters, changes nothing.
pub prepare_series-idempotent :
    (b : Browser) (f : Filters) (nm ignore : Bool) (d : GraphData)
    → prepare_series b f nm ignore (prepare_series b f nm ignore d) ≡ prepare_series b f nm ignore d
unfolding prepare_series filter_series
prepare_series-idempotent b f nm ignore d =
    let supports = d.result.supports_controllers_discrimination in
    let filtered =
      select_if-twice
        (not ignore
          && not (str_eq f.series_filter "")
          && (not f.filters_only_sample_series || supports))
        (supports && f.show_controllers_only) (λ s. b.matches f.series_filter s.label)
        (λ s. s.is_controller) nm d.result.series (λ s cs k. refl) (λ s cs k. refl) in
    rw filtered (rw mark_series-twice refl)

-- A prepared series: its coordinates are those of the data, in falling order of their abscissas.
abbrev pub IsPreparedFrom : Series → Series → Type 0
IsPreparedFrom s t = (t.label ≡ s.label) × IsDescending t.points × Perm t.points s.points

abbrev pub Prepared : List Series → List Series → Type 0
Prepared [] [] = Unit
Prepared (s ∷ ss) (t ∷ ts) = IsPreparedFrom s t × Prepared ss ts
Prepared _ _ = ⊥

mark_series-Prepared : (nm : Bool) (i : ℕ) (ss : List Series) → Prepared ss (mark_series nm i ss)
unfolding mark_series
mark_series-Prepared nm i [] = tt
mark_series-Prepared nm i (s ∷ ss) = (
  (refl, sort_by_x-IsDescending s.points, sort_by_x-perm s.points),
  mark_series-Prepared nm (suc i) ss,
)

-- The prepared series are the ones that the filters let through, in their order, each with its
-- label and its coordinates, which are sorted by falling abscissa.
pub prepare_series-Prepared :
    (b : Browser) (f : Filters) (nm ignore : Bool) (d : GraphData)
    → Prepared (filter_series b f ignore d.result) (prepare_series b f nm ignore d).result.series
unfolding prepare_series
prepare_series-Prepared b f nm ignore d =
    mark_series-Prepared nm 0 (filter_series b f ignore d.result)

pub find_series-found :
    (key : String) (ss : List Series) (s : Series)
    → find_series key ss ≡ some s
    → (s.label ≡ key) × Memᴰ s ss
unfolding find_series
find_series-found key [] s e = cc
find_series-found key (x ∷ ss) s e = elim (Bool-cases (str_eq x.label key)) [
  | inl same ↦
      let p : x ≡ s = some-injective x s (rw same at e) in
      (subst (λ t. t.label ≡ key) p ((eq_iff x.label key).0 same), Memᴰ.head (sym p))
  | inr other ↦ let (label, m) = find_series-found key ss s (rw other at e) in (label, Memᴰ.tail m)
]
