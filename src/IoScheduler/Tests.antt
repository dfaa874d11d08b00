-- ===== src/IoScheduler/Tests.antt =====
-- Reads of a file and their reuse, and instances of the theorems.
use glommio.Base.{◌≡◌, refl, [], ◌∷◌, some, arith, ap, inl, inr}
use glommio.IoScheduler.{FileScheduler, ScheduledSource, schedule, consume_scheduled}
use glommio.IoScheduler.Reuse.{
  Sound, Covers, Reused, consume_scheduled_lem, consume_scheduled-schedule,
}

-- Two reads: [4096, 8192) and [0, 512).
abbrev two_reads : FileScheduler
two_reads = record {
  sources =
      record { source = 2; start = 4096; end = 8192 }
      ∷ record { source = 1; start = 0; end = 512 }
      ∷ [];
  longest = 4096;
}

two_reads-Sound : Sound two_reads
two_reads-Sound = record {
  sorted = (
    (λ y i. elim i [ inl e ↦ ground (arith, ap (λ z. z.start) e) | inr j ↦ absurd j ]),
    ((λ y i. absurd i), tt),
  );
  short = λ x i. elim i [
    | inl e ↦ ground (arith, ap (λ z. z.start) e, ap (λ z. z.end) e)
    | inr j ↦ elim j [
      | inl e ↦ ground (arith, ap (λ z. z.start) e, ap (λ z. z.end) e)
      | inr k ↦ absurd k
    ]
  ];
}

-- [5000, 6000) lies in the first read.
reuse :
    consume_scheduled two_reads 5000 6000
    ≡ some (record {
      inner = record { source = 2; start = 4096; end = 8192 };
      offset_start = 904;
      offset_end = 1904;
    })
unfolding consume_scheduled
reuse = refl

consume_scheduled_lem_example : Reused two_reads 100 600 (consume_scheduled two_reads 100 600)
consume_scheduled_lem_example =
    consume_scheduled_lem two_reads 100 600 two_reads-Sound (omega arith) (omega arith)

consume_scheduled-schedule_example :
    Sound (schedule two_reads 3 400 700).0
    × ((v : ScheduledSource) × (consume_scheduled (schedule two_reads 3 400 700).0 500 600 ≡ some v)
        × Covers v.inner 500 600)
consume_scheduled-schedule_example =
    consume_scheduled-schedule two_reads 3 400 700 500 600 two_reads-Sound (omega arith)
      (omega arith) (omega arith) (omega arith)
