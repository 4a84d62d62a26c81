-- ===== src/Model/Snapshot/Life.antt =====
-- The life of a snapshot over any list of calls: a refused call changes nothing.
use task274_replaydivergence.Prelude.{ℕ, ◌≡◌, refl, ◌≢◌, List, [], ◌∷◌, arith}
use task274_replaydivergence.Model.Batch.{Time}
use task274_replaydivergence.Model.Errors.{Result, ok, err}
use task274_replaydivergence.Model.Status.{draft}
use task274_replaydivergence.Model.Snapshot.{
  LocSnapshot, SnapshotSummary, set_summary, publish, supersede,
}

pub data Call : Type 0 where
  summarize : SnapshotSummary → Call
  release : Time → Call
  replace : ℕ → Call

attempt : LocSnapshot → Call → Result LocSnapshot
attempt s (summarize sum) = set_summary s sum
attempt s (release now) = publish now s
attempt s (replace by_id) = supersede s by_id

settle : LocSnapshot → Result LocSnapshot → LocSnapshot
settle s (ok s') = s'
settle s (err e) = s

pub calls : LocSnapshot → List Call → LocSnapshot
unfolding attempt settle
calls s [] = s
calls s (c ∷ rest) = calls (settle s (attempt s c)) rest

-- What a published snapshot has fixed.
pub record SameEvidence (s t : LocSnapshot) : Type 0 where
  pub config : t.config ≡ s.config
  pub summary : t.summary ≡ s.summary
  pub published_at : t.published_at ≡ s.published_at
  pub still_public : t.status ≢ draft

attempt_frozen :
    (s : LocSnapshot) (c : Call) → s.status ≢ draft → SameEvidence s (settle s (attempt s c))
unfolding settle attempt set_summary publish supersede
attempt_frozen s (summarize sum) h = ground arith
attempt_frozen s (release now) h = ground arith
attempt_frozen s (replace by_id) h = ground arith

-- Once a snapshot is no draft, no list of calls changes its configuration, its summary or its
-- time of publication, and it never becomes a draft again.
pub published_evidence_frozen :
    (cs : List Call) (s : LocSnapshot) → s.status ≢ draft → SameEvidence s (calls s cs)
unfolding calls
published_evidence_frozen [] s h = record {
  config = refl;
  summary = refl;
  published_at = refl;
  still_public = h;
}
published_evidence_frozen (c ∷ rest) s h =
    let one = attempt_frozen s c h in
    let more = published_evidence_frozen rest (settle s (attempt s c)) one.still_public in
    record {
      config = cc (one.config, more.config);
      summary = cc (one.summary, more.summary);
      published_at = cc (one.published_at, more.published_at);
      still_public = more.still_public;
    }
