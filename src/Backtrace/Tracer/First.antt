-- ===== src/Backtrace/Tracer/First.antt =====
-- `firstDivergentEvent` finds the least seq at which the two trails write different values.
use task274_replaydivergence.Prelude.{
  ◌≡◌, ◌≢◌, ◌↔◌, refl, inl, inr, true, false, List, [], ◌∷◌, none, some, arith, Memᴰ, Memᴰ-cons,
  All, All-mem, Option-cases, Bool-cases, ◌∙◌, Option, ap, eq_of_some,
}
use task274_replaydivergence.Prelude.Int.{ℤ, ◌≤ℤ◌, ◌<ℤ◌, ltb_ℤ, eq_of_parts}
use task274_replaydivergence.Prelude.Order.{int_order}
use task274_replaydivergence.Prelude.Sort.{sort_on, IsSorted, sort_on-IsSorted, mem-sort_on}
use task274_replaydivergence.Prelude.Unique.{itself}
use task274_replaydivergence.Model.Event.{ExecEvent}
use task274_replaydivergence.Backtrace.Tracer.{
  SeqMap, lookup_seq, Tracer, writes_differ, differing, seqs_up_to, first_of_seqs,
  first_divergent_event, test_if_differs,
}

-- Both trails have an instruction at `s`, the one under test is `e`, and they write different
-- values to one resource.
pub record DiffersAt (t : Tracer) (s : ℤ) (e : ExecEvent) : Type 0 where
  pub ref_e : ExecEvent
  pub in_test : lookup_seq s t.events ≡ some e
  pub in_ref : lookup_seq s t.ref_events ≡ some ref_e
  pub differ : writes_differ e ref_e ≡ true

both_found :
    (a b : Option ExecEvent) (e : ExecEvent)
    → test_if_differs a b ≡ some e
    → (r : ExecEvent) × (a ≡ some e) × (b ≡ some r) × (writes_differ e r ≡ true)
unfolding test_if_differs
both_found none b e h = cc h
both_found (some x) none e h = cc h
both_found (some x) (some r) e h = elim (Bool-cases (writes_differ x r)) [
  | inl d ↦ let same : x ≡ e = eq_of_some (rw d at h) in (r, ap some same, refl, rw (← same) d)
  | inr d ↦ cc (rw d at h)
]

differing→DiffersAt :
    (t : Tracer) (s : ℤ) (e : ExecEvent) → differing t s ≡ some e → DiffersAt t s e
unfolding differing
differing→DiffersAt t s e h =
    let (r, a, b, d) = both_found (lookup_seq s t.events) (lookup_seq s t.ref_events) e h in
    record { ref_e = r; in_test = a; in_ref = b; differ = d }

DiffersAt→differing :
    (t : Tracer) (s : ℤ) (e : ExecEvent) → DiffersAt t s e → differing t s ≡ some e
unfolding differing
DiffersAt→differing t s e d =
    rw (d.in_test, d.in_ref, differing, test_if_differs) (rw d.differ refl)

mem-seqs_up_to :
    (limit s : ℤ) (m : SeqMap)
    → Memᴰ s (seqs_up_to limit m) ↔ ((s ≤ℤ limit) × (lookup_seq s m ≢ none))
unfolding seqs_up_to lookup_seq
mem-seqs_up_to limit s [] = (λ h. elim h [ ], λ h. absurd (h.1 refl))
mem-seqs_up_to limit s ((q, e) ∷ m) =
    ground (arith, mem-seqs_up_to limit s m, Memᴰ-cons s q (seqs_up_to limit m), eq_of_parts s q)

module _ (t : Tracer) where
  first_of_seqs-none :
      (ss : List ℤ) → first_of_seqs t ss ≡ none → All (λ s. differing t s ≡ none) ss
  unfolding first_of_seqs
  first_of_seqs-none [] h = tt
  first_of_seqs-none (s ∷ ss) h = elim (Option-cases (differing t s)) [
    | inl e ↦ (e, first_of_seqs-none ss (rw (e, first_of_seqs) at h))
    | inr (x, e) ↦ cc (rw (e, first_of_seqs) at h)
  ]

  -- A result comes from some seq of the list, before which no seq of the list differs.
  first_of_seqs-some :
      (ss : List ℤ) (e : ExecEvent)
      → IsSorted itself ss
      → first_of_seqs t ss ≡ some e
      → (s : ℤ) × Memᴰ s ss
        × (differing t s ≡ some e)
        × ((q : ℤ) → Memᴰ q ss → ltb_ℤ q s ≡ true → differing t q ≡ none)
  unfolding first_of_seqs
  first_of_seqs-some [] e sorted h = cc h
  first_of_seqs-some (s ∷ ss) e sorted h = elim (Option-cases (differing t s)) [
    | inl skipped ↦
        let (s', m, d, least) =
          first_of_seqs-some ss e sorted.1 (rw (skipped, first_of_seqs) at h) in
        (
          s',
          Memᴰ.tail m,
          d,
          λ q mq below. elim ((Memᴰ-cons q s ss).0 mq) [
            | inl same ↦ rw same skipped
            | inr later ↦ least q later below
          ],
        )
    | inr (x, hit) ↦ (
      s,
      Memᴰ.head refl,
      hit ∙ (rw (hit, first_of_seqs) at h),
      λ q mq below. elim ((Memᴰ-cons q s ss).0 mq) [
        | inl same ↦ absurd (ground (arith, same))
        | inr later ↦ cc (All-mem (λ p. ltb_ℤ p s ≡ false) ss q sorted.0 later, below)
      ],
    )
  ]

  -- If an instruction is returned, it stands at a seq up to the checkpoint where the trails differ,
  -- and they differ at no smaller seq. If none is returned, they differ at no seq up to the
  -- checkpoint.
  pub first_divergent_event_exact :
      (checkpoint_seq : ℤ)
      → ((e : ExecEvent)
          → first_divergent_event t checkpoint_seq ≡ some e
          → (s : ℤ) × (s ≤ℤ checkpoint_seq)
            × DiffersAt t s e
            × ((q : ℤ) (f : ExecEvent) → q <ℤ s → ¬ DiffersAt t q f))
        × (first_divergent_event t checkpoint_seq ≡ none
            → (q : ℤ) (f : ExecEvent) → q ≤ℤ checkpoint_seq
            → ¬ DiffersAt t q f)
  unfolding first_divergent_event
  first_divergent_event_exact limit = (
    λ e h.
        let (s, m, d, least) =
          first_of_seqs-some (sort_on itself (seqs_up_to limit t.events)) e
            (sort_on-IsSorted itself (seqs_up_to limit t.events)) h in
        let within = (mem-seqs_up_to limit s t.events).0 ((mem-sort_on itself s _).0 m) in
        (
          s,
          within.0,
          differing→DiffersAt t s e d,
          λ q f below dq. cc (
            least q (listed limit q f dq (omega (arith, within.0))) (ground arith),
            DiffersAt→differing t q f dq,
          ),
        ),
    λ h q f le dq. cc (
      All-mem (λ s. differing t s ≡ none) _ q (first_of_seqs-none _ h) (listed limit q f dq le),
      DiffersAt→differing t q f dq,
    ),
  )
    where
      listed :
          (limit q : ℤ) (f : ExecEvent)
          → DiffersAt t q f
          → q ≤ℤ limit
          → Memᴰ q (sort_on itself (seqs_up_to limit t.events))
      listed limit q f dq le =
          (mem-sort_on itself q _).1
            ((mem-seqs_up_to limit q t.events).1 (le, λ n. cc (n, dq.in_test)))
