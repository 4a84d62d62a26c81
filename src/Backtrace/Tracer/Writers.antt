-- ===== src/Backtrace/Tracer/Writers.antt =====
-- `latestRefWriter` returns the last writer of a resource within the limit.
use task274_replaydivergence.Prelude.{
  String, ◌≡◌, refl, inl, inr, ◌⊎◌, false, ◌&&◌, List, [], ◌∷◌, Option, none, some, arith, Memᴰ,
  Memᴰ-cons, Bool-cases, if◌then◌else◌, str_eq, eq_iff, sym, ap, ◌∙◌, eq_of_some,
}
use task274_replaydivergence.Prelude.Int.{ℤ, ◌≤ℤ◌, ltb_ℤ}
use task274_replaydivergence.Model.Event.{ResourceAccess, ExecEvent, key}
use task274_replaydivergence.Backtrace.Tracer.{
  SeqMap, Tracer, is_later, better_writer, writer_among, latest_ref_writer,
}

-- One of the accesses has this key.
abbrev pub Writes : String → List ResourceAccess → Type 0
Writes resource [] = ⊥
Writes resource (w ∷ ws) = (key w ≡ resource) ⊎ Writes resource ws

-- `best` is no earlier than the event.
abbrev pub Covers : Option ExecEvent → ExecEvent → Type 0
Covers none e = ⊥
Covers (some best) e = e.seq ≤ℤ best.seq

better_writer_cases :
    (resource : String) (e : ExecEvent) (ws : List ResourceAccess) (best : Option ExecEvent)
    → (better_writer resource e ws best ≡ best)
      ⊎ ((better_writer resource e ws best ≡ some e) × Writes resource ws)
unfolding better_writer is_later
better_writer_cases resource e [] best = inl refl
better_writer_cases resource e (w ∷ ws) best = ground (
  arith,
  better_writer_cases resource e ws best,
  better_writer_cases resource e ws (some e),
  eq_iff (key w) resource,
)

better_writer_grows :
    (resource : String) (e f : ExecEvent) (ws : List ResourceAccess) (best : Option ExecEvent)
    → Covers best f
    → Covers (better_writer resource e ws best) f
unfolding better_writer is_later
better_writer_grows resource e f [] best h = h
better_writer_grows resource e f (w ∷ ws) none h = absurd h
better_writer_grows resource e f (w ∷ ws) (some b) h =
    better_writer_grows resource e f ws
      (if str_eq (key w) resource && is_later e (some b) then some e else some b) (ground arith)

better_writer-Covers :
    (resource : String) (e : ExecEvent) (ws : List ResourceAccess) (best : Option ExecEvent)
    → Writes resource ws
    → Covers (better_writer resource e ws best) e
unfolding better_writer is_later
better_writer-Covers resource e [] best h = absurd h
better_writer-Covers resource e (w ∷ ws) best (inl here) =
    better_writer_grows resource e e ws
      (if str_eq (key w) resource && is_later e best then some e else best)
      (ground (arith, eq_iff (key w) resource))
better_writer-Covers resource e (w ∷ ws) best (inr later) =
    better_writer-Covers resource e ws
      (if str_eq (key w) resource && is_later e best then some e else best) later

-- The event stands in the map at a seq within the limit, and writes the resource.
pub record WritesWithin (resource : String) (limit : ℤ) (m : SeqMap) (e : ExecEvent) : Type 0 where
  pub at : ℤ
  pub entry : Memᴰ (at, e) m
  pub within : at ≤ℤ limit
  pub writes : Writes resource e.writes

WritesWithin-tail :
    (resource : String) (limit : ℤ) (m : SeqMap) (e : ExecEvent) (p : ℤ × ExecEvent)
    → WritesWithin resource limit m e
    → WritesWithin resource limit (p ∷ m) e
WritesWithin-tail resource limit m e p h = record {
  at = h.at;
  entry = Memᴰ.tail h.entry;
  within = h.within;
  writes = h.writes;
}

writer_among_origin :
    (resource : String) (limit : ℤ) (m : SeqMap) (best : Option ExecEvent) (e : ExecEvent)
    → writer_among resource limit m best ≡ some e
    → (best ≡ some e) ⊎ WritesWithin resource limit m e
unfolding writer_among
writer_among_origin resource limit [] best e h = inl h
writer_among_origin resource limit ((s, x) ∷ m) best e h = elim (Bool-cases (ltb_ℤ limit s)) [
  | inl past ↦ later best (writer_among_origin resource limit m best e (rw past at h))
  | inr inside ↦
      elim (writer_among_origin resource limit m (better_writer resource x x.writes best) e
        (rw inside at h)) [
          | inl kept ↦ elim (better_writer_cases resource x x.writes best) [
            | inl same ↦ inl (sym same ∙ kept)
            | inr (new, w) ↦
                let e_x : e ≡ x = eq_of_some (sym kept ∙ new) in
                inr (record {
                  at = s;
                  entry = Memᴰ.head (ap (λ (y : ExecEvent). (s, y)) e_x);
                  within = ground arith;
                  writes = rw e_x w;
                })
          ]
          | inr found ↦ inr (WritesWithin-tail resource limit m e (s, x) found)
        ]
]
  where
    later :
        (b : Option ExecEvent)
        → (b ≡ some e) ⊎ WritesWithin resource limit m e
        → (b ≡ some e) ⊎ WritesWithin resource limit ((s, x) ∷ m) e
    later b (inl k) = inl k
    later b (inr f) = inr (WritesWithin-tail resource limit m e (s, x) f)

writer_among_grows :
    (resource : String) (limit : ℤ) (f : ExecEvent) (m : SeqMap) (best : Option ExecEvent)
    → Covers best f
    → Covers (writer_among resource limit m best) f
unfolding writer_among
writer_among_grows resource limit f [] best h = h
writer_among_grows resource limit f ((s, x) ∷ m) best h = elim (Bool-cases (ltb_ℤ limit s)) [
  | inl past ↦ rw past (writer_among_grows resource limit f m best h)
  | inr inside ↦ rw inside (
      writer_among_grows resource limit f m (better_writer resource x x.writes best)
        (better_writer_grows resource x f x.writes best h))
]

writer_among-Covers :
    (resource : String) (limit at : ℤ) (e : ExecEvent) (m : SeqMap) (best : Option ExecEvent)
    → Memᴰ (at, e) m
    → at ≤ℤ limit
    → Writes resource e.writes
    → Covers (writer_among resource limit m best) e
unfolding writer_among
writer_among-Covers resource limit at e [] best h le w = elim h [ ]
writer_among-Covers resource limit at e ((s, x) ∷ m) best h le w =
    elim ((Memᴰ-cons (at, e) (s, x) m).0 h) [
      | inl here ↦
          let inside : ltb_ℤ limit s ≡ false =
            rw (← ap (λ (p : ℤ × ExecEvent). p.0) here) (ground arith) in
          let x_e : e ≡ x = ap (λ (p : ℤ × ExecEvent). p.1) here in
          rw inside (
            writer_among_grows resource limit e m (better_writer resource x x.writes best)
              (rw (← x_e) (better_writer-Covers resource e e.writes best w)))
      | inr there ↦ elim (Bool-cases (ltb_ℤ limit s)) [
        | inl past ↦ rw past (writer_among-Covers resource limit at e m best there le w)
        | inr inside ↦ rw inside (
            writer_among-Covers resource limit at e m (better_writer resource x x.writes best) there
              le w)
      ]
    ]

Covers-le : (o : Option ExecEvent) (w f : ExecEvent) → o ≡ some w → Covers o f → f.seq ≤ℤ w.seq
Covers-le o w f e h = rw e at h

Covers-none : (o : Option ExecEvent) (f : ExecEvent) → o ≡ none → Covers o f → ⊥
Covers-none o f e h = rw e at h

-- A returned event stands in the reference trail at a seq within the limit and writes the
-- resource, and no such event has a greater seq. If none is returned, there is no such event.
pub latest_ref_writer_exact :
    (t : Tracer) (resource : String) (limit : ℤ)
    → ((w : ExecEvent)
        → latest_ref_writer t resource limit ≡ some w
        → WritesWithin resource limit t.ref_events w
          × ((f : ExecEvent) → WritesWithin resource limit t.ref_events f → f.seq ≤ℤ w.seq))
      × (latest_ref_writer t resource limit ≡ none
          → (f : ExecEvent) → ¬ WritesWithin resource limit t.ref_events f)
unfolding latest_ref_writer
latest_ref_writer_exact t resource limit = (
  λ w h. (
    elim (writer_among_origin resource limit t.ref_events none w h) [
      | inl never ↦ cc never
      | inr found ↦ found
    ],
    λ f d. Covers-le _ w f h (covered f d),
  ),
  λ h f d. Covers-none _ f h (covered f d),
)
  where
    covered :
        (f : ExecEvent)
        → WritesWithin resource limit t.ref_events f
        → Covers (writer_among resource limit t.ref_events none) f
    covered f d =
        writer_among-Covers resource limit d.at f t.ref_events none d.entry d.within d.writes
