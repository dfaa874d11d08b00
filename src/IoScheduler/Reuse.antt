-- ===== src/IoScheduler/Reuse.antt =====
-- consume_scheduled of sched.rs finds a read that covers a range exactly when there is one.
use glommio.Base.{
  ℕ, ◌+◌, ◌-◌, ◌^◌, ◌≤◌, ◌<◌, ◌≡◌, refl, ap, ◌⊎◌, inl, inr, List, [], ◌∷◌, Option, none, some,
  arith, leb, option_map, Bool-cases, Option-cases, ◌==◌,
}
use glommio.IoScheduler.{
  Scheduled, FileScheduler, ScheduledSource, insert, upper_bound, covering, view, consume_scheduled,
  schedule, without, remove_source,
}

abbrev pub In : Scheduled → List Scheduled → Type 0
In s [] = ⊥
In s (x ∷ xs) = (s ≡ x) ⊎ In s xs

-- From the largest key down.
abbrev pub Sorted : List Scheduled → Type 0
Sorted [] = Unit {0}
Sorted (x ∷ xs) = ((y : Scheduled) → In y xs → y.start ≤ x.start) × Sorted xs

abbrev pub Covers : Scheduled → ℕ → ℕ → Type 0
Covers x start end = (x.start ≤ start) × (end ≤ x.end)

-- Every read is a range of at most the longest length.
pub record Sound (f : FileScheduler) : Type 0 where
  pub sorted : Sorted f.sources
  pub short : (x : Scheduled) → In x f.sources → x.end ≤ x.start + f.longest

-- What `consume_scheduled` returns: a part of a read that covers the range, or no read covers it.
abbrev pub Reused : FileScheduler → ℕ → ℕ → Option ScheduledSource → Type 0
Reused f start end none = (x : Scheduled) → In x f.sources → Covers x start end → ⊥
Reused f start end (some v) =
    In v.inner f.sources
    × Covers v.inner start end
    × (v.inner.start + v.offset_start ≡ start)
    × (v.inner.start + v.offset_end ≡ end)

upper_bound_lem :
    (start : ℕ) (l : List Scheduled)
    → Sorted l
    → Sorted (upper_bound start l)
      × ((x : Scheduled) → In x (upper_bound start l) → In x l × (x.start ≤ start))
      × ((x : Scheduled) → In x l → x.start ≤ start → In x (upper_bound start l))
unfolding upper_bound
upper_bound_lem start [] s = (tt, (λ x i. absurd i), λ x i h. i)
upper_bound_lem start (y ∷ l) s = elim (Bool-cases (leb y.start start)) [
  | inl here ↦ rw here (
    s,
    (λ x i. (
      i,
      elim i [ inl e ↦ ground (arith, ap (λ z. z.start) e) | inr j ↦ ground (arith, s.0 x j) ],
    )),
    λ x i h. i,
  )
  | inr above ↦
      let (a, b, c) = upper_bound_lem start l s.1 in
      rw above (
        a,
        (λ x i. let (j, h) = b x i in (inr j, h)),
        λ x i h. elim i [ inl e ↦ absurd (ground (arith, ap (λ z. z.start) e)) | inr j ↦ c x j h ],
      )
]

-- The loop on entries that all start in time.
abbrev Looped : List Scheduled → ℕ → Option Scheduled → Type 0
Looped l end none = (x : Scheduled) → In x l → end ≤ x.end → ⊥
Looped l end (some x) = In x l × (end ≤ x.end)

Looped-cons :
    (y : Scheduled) (l : List Scheduled) (end : ℕ) (o : Option Scheduled)
    → y.end < end
    → Looped l end o
    → Looped (y ∷ l) end o
Looped-cons y l end none h k =
    λ x i e. elim i [ inl q ↦ absurd (omega (arith, ap (λ z. z.end) q)) | inr j ↦ k x j e ]
Looped-cons y l end (some x) h (i, e) = (inr i, e)

covering_lem :
    (longest end : ℕ) (l : List Scheduled)
    → Sorted l
    → ((x : Scheduled) → In x l → x.end ≤ x.start + longest)
    → Looped l end (covering (end - longest) end l)
unfolding covering
covering_lem longest end [] s h = λ x i e. i
covering_lem longest end (y ∷ l) s h = elim (Bool-cases (leb (end - longest) y.start)) [
  | inr early ↦ rw early (λ x i e. elim i [
    | inl q ↦ absurd (ground (arith, ap (λ z. z.end) q, h y (inl refl)))
    | inr j ↦ absurd (ground (arith, h x (inr j), s.0 x j))
  ])
  | inl late ↦ elim (Bool-cases (leb end y.end)) [
    | inl found ↦ rw (late, found) (inl refl, ground arith)
    | inr short ↦
        rw (late, short)
          (Looped-cons y l end (covering (end - longest) end l) (ground arith)
            (covering_lem longest end l s.1 (λ x i. h x (inr i))))
  ]
]

Reused-by :
    (f : FileScheduler) (start end : ℕ) (o : Option Scheduled)
    → start ≤ end
    → end < 2 ^ 64
    → Sorted f.sources
    → Looped (upper_bound start f.sources) end o
    → Reused f start end (option_map (view start end) o)
unfolding view
Reused-by f start end none h k s n =
    λ x i c. let (a, b, d) = upper_bound_lem start f.sources s in n x (d x i c.0) c.1
Reused-by f start end (some x) h k s (i, e) =
    let (a, b, d) = upper_bound_lem start f.sources s in
    let (j, l) = b x i in (j, (l, e), omega arith, omega arith)

-- For every range of u64 positions `consume_scheduled` finds a read exactly when one of those under
-- way covers the range: what it returns is a part of a read of this file, at the offsets of the
-- range, and it returns nothing only if no read covers the range. Stopping at the longest length
-- loses none.
pub consume_scheduled_lem :
    (f : FileScheduler) (start end : ℕ)
    → Sound f
    → start ≤ end
    → end < 2 ^ 64
    → Reused f start end (consume_scheduled f start end)
unfolding consume_scheduled
consume_scheduled_lem f start end v h k =
    let (a, b, d) = upper_bound_lem start f.sources v.sorted in
    Reused-by f start end (covering (end - f.longest) end (upper_bound start f.sources)) h k
      v.sorted
      (covering_lem f.longest end (upper_bound start f.sources) a (λ x i. v.short x (b x i).0))

insert_lem :
    (s : Scheduled) (l : List Scheduled)
    → Sorted l
    → Sorted (insert s l)
      × In s (insert s l)
      × ((x : Scheduled) → In x (insert s l) → (x ≡ s) ⊎ In x l)
unfolding insert
insert_lem s [] h =
    (((λ y i. absurd i), tt), inl refl, λ x i. elim i [ inl e ↦ inl e | inr j ↦ absurd j ])
insert_lem s (x ∷ l) h = elim (Bool-cases (leb x.start s.start)) [
  | inl first ↦ rw first (
    (
      (λ y i. elim i [
        | inl e ↦ ground (arith, ap (λ z. z.start) e)
        | inr j ↦ ground (arith, h.0 y j)
      ]),
      h,
    ),
    inl refl,
    λ y i. i,
  )
  | inr later ↦
      let (a, b, c) = insert_lem s l h.1 in
      rw later (
        (
          (λ y i. elim (c y i) [ inl e ↦ ground (arith, ap (λ z. z.start) e) | inr j ↦ h.0 y j ]),
          a,
        ),
        inr b,
        λ y i. elim i [
          | inl e ↦ inr (inl e)
          | inr j ↦ elim (c y j) [ inl e ↦ inl e | inr k ↦ inr (inr k) ]
        ],
      )
]

schedule_lem :
    (f : FileScheduler) (source start end : ℕ)
    → Sound f
    → start ≤ end
    → end < 2 ^ 64
    → Sound (schedule f source start end).0
      × In (schedule f source start end).1.inner (schedule f source start end).0.sources
unfolding schedule
schedule_lem f source start end v h k =
    let new : Scheduled = record { source = source; start = start; end = end } in
    let (a, b, c) = insert_lem new f.sources v.sorted in
    (
      record {
        sorted = a;
        short = λ x i. elim (c x i) [
          | inl e ↦ ground (arith, ap (λ z. z.start) e, ap (λ z. z.end) e)
          | inr j ↦ ground (arith, v.short x j)
        ];
      },
      b,
    )

schedule-Covers :
    (f : FileScheduler) (source start end from to : ℕ)
    → start ≤ from
    → to ≤ end
    → Covers (schedule f source start end).1.inner from to
unfolding schedule
schedule-Covers f source start end from to h l = (h, l)

without_lem :
    (source : ℕ) (l : List Scheduled)
    → Sorted l
    → Sorted (without source l) × ((x : Scheduled) → In x (without source l) → In x l)
unfolding without
without_lem source [] s = (tt, λ x i. i)
without_lem source (y ∷ l) s = elim (Bool-cases (y.source == source)) [
  | inl found ↦ rw found (s.1, λ x i. inr i)
  | inr other ↦
      let (a, b) = without_lem source l s.1 in
      rw other (((λ x i. s.0 x (b x i)), a), λ x i. elim i [ inl e ↦ inl e | inr j ↦ inr (b x j) ])
]

-- After `schedule` of a range of u64 positions the scheduler is sound, and `consume_scheduled` of any
-- part of the range finds a read that covers it.
pub consume_scheduled-schedule :
    (f : FileScheduler) (source start end from to : ℕ)
    → Sound f
    → start ≤ from
    → from ≤ to
    → to ≤ end
    → end < 2 ^ 64
    → let g = (schedule f source start end).0 in
      Sound g
      × ((v : ScheduledSource) × (consume_scheduled g from to ≡ some v) × Covers v.inner from to)
consume_scheduled-schedule f source start end from to v h k l m =
    let (s, i) = schedule_lem f source start end v (omega arith) m in
    let g = (schedule f source start end).0 in
    (
      s,
      elim (Option-cases (consume_scheduled g from to)) [
        | inl nothing ↦
            let r = consume_scheduled_lem g from to s k (omega arith) in
            let r' : Reused g from to none = rw nothing at r in
            absurd (
              r' (schedule f source start end).1.inner i
                (schedule-Covers f source start end from to h l))
        | inr (x, e) ↦
            let r = consume_scheduled_lem g from to s k (omega arith) in
            let r' : Reused g from to (some x) = rw e at r in (x, e, r'.1)
      ],
    )

-- The drop of a scheduled source keeps the scheduler sound.
pub remove_source-Sound :
    (f : FileScheduler) (source : ℕ) → Sound f → Sound (remove_source f source)
unfolding remove_source
remove_source-Sound f source v =
    let (a, b) = without_lem source f.sources v.sorted in
    record { sorted = a; short = λ x i. v.short x (b x i) }
