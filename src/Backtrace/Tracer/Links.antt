-- ===== src/Backtrace/Tracer/Links.antt =====
-- What the nodes of a chain are.
use task274_replaydivergence.Prelude.{
  ℕ, zero, suc, ◌+◌, ◌≡◌, ◌≢◌, refl, ap, inl, inr, true, false, List, [], ◌∷◌, ◌++◌, Option, none,
  some, arith, Memᴰ, All, All-map, Bool-cases, List-cases, eq_of_some, All-of_mem, length,
}
use task274_replaydivergence.Prelude.Int.{ℤ}
use task274_replaydivergence.Prelude.Order.{int_order}
use task274_replaydivergence.Prelude.Unique.{IsDistinct}
use task274_replaydivergence.Model.Event.{ResourceAccess, ExecEvent, key}
use task274_replaydivergence.Model.Divergence.{ChainEdge}
use task274_replaydivergence.Backtrace.Tracer.{
  Tracer, is_visited, Frontier, follow, follow_reads, expand, expand_chain, latest_ref_writer,
  reader_node,
}

All-snoc {ℓ κ} :
    {A : Type ℓ} (P : A → Type κ) (xs : List A) (x : A) → All P xs → P x → All P (xs ++ x ∷ [])
All-snoc P [] x h p = (p, tt)
All-snoc P (y ∷ ys) x h p = (h.0, All-snoc P ys x h.1 p)

-- Going from an instruction to the last reference writer of something that it reads.
pub data Reaches (t : Tracer) (first : ExecEvent) (start : ℕ) : ExecEvent → ℕ → Type 0 where
  origin : Reaches t first start first start
  upstream :
      {cur w : ExecEvent} {depth next : ℕ} {rd : ResourceAccess}
      → Reaches t first start cur depth
      → Memᴰ rd cur.reads
      → latest_ref_writer t (key rd) cur.seq ≡ some w
      → next ≡ depth + 1
      → Reaches t first start w next

module _ (t : Tracer) (first : ExecEvent) (start : ℕ) where
  -- A node shows the last reference writer, up to the seq of a reached instruction, of a resource
  -- that this instruction reads.
  pub record IsLink (n : ChainEdge) : Type 0 where
    pub cur : ExecEvent
    pub rd : ResourceAccess
    pub w : ExecEvent
    pub reached : Reaches t first start cur n.depth
    pub read : Memᴰ rd cur.reads
    pub latest : latest_ref_writer t (key rd) cur.seq ≡ some w
    pub shown : n ≡ reader_node n.depth (key rd) w

  record Sound (f : Frontier) : Type 0 where
    queued : All (λ (c : ExecEvent × ℕ). Reaches t first start c.0 c.1) f.queue
    linked : All IsLink f.nodes
    seen : All (λ (n : ChainEdge). is_visited n.seq f.visited ≡ true) f.nodes
    distinct : IsDistinct (λ (n : ChainEdge). n.seq) f.nodes

  still_seen :
      (s : ℤ) (vs : List ℤ) (ns : List ChainEdge)
      → All (λ (n : ChainEdge). is_visited n.seq vs ≡ true) ns
      → All (λ (n : ChainEdge). is_visited n.seq (s ∷ vs) ≡ true) ns
  still_seen s vs ns h =
      All-map (λ (n : ChainEdge). is_visited n.seq vs ≡ true)
        (λ n. is_visited n.seq (s ∷ vs) ≡ true) ns (λ n e. unfold is_visited in ground arith) h

  IsDistinct-snoc :
      (vs : List ℤ) (ns : List ChainEdge) (new : ChainEdge)
      → IsDistinct (λ (n : ChainEdge). n.seq) ns
      → All (λ (n : ChainEdge). is_visited n.seq vs ≡ true) ns
      → is_visited new.seq vs ≡ false
      → IsDistinct (λ (n : ChainEdge). n.seq) (ns ++ new ∷ [])
  IsDistinct-snoc vs [] new d h fresh = (tt, tt)
  IsDistinct-snoc vs (n ∷ ns) new d h fresh = (
    All-snoc (λ (m : ChainEdge). n.seq ≢ m.seq) ns new d.0
        (λ e. cc (ap (λ s. is_visited s vs) e, h.0, fresh)),
    IsDistinct-snoc vs ns new d.1 h.1 fresh,
  )

  follow-Sound :
      (cur : ExecEvent) (depth : ℕ) (rd : ResourceAccess) (f : Frontier)
      → Reaches t first start cur depth
      → Memᴰ rd cur.reads
      → Sound f
      → Sound (follow depth (key rd) (latest_ref_writer t (key rd) cur.seq) f)
  follow-Sound cur depth rd f r m h = found (latest_ref_writer t (key rd) cur.seq) refl
    where
      found :
          (o : Option ExecEvent)
          → latest_ref_writer t (key rd) cur.seq ≡ o
          → Sound (follow depth (key rd) o f)
      found none e = unfold follow in h
      found (some w) e = elim (Bool-cases (is_visited w.seq f.visited)) [
        | inl old ↦ unfold follow in rw old h
        | inr new ↦
            unfold follow reader_node in
            rw new (record {
              queued =
                  All-snoc (λ (c : ExecEvent × ℕ). Reaches t first start c.0 c.1) f.queue
                    (w, depth + 1) h.queued (upstream r m e refl);
              linked = All-snoc IsLink f.nodes (reader_node depth (key rd) w) h.linked (record {
                cur = cur;
                rd = rd;
                w = w;
                reached = r;
                read = m;
                latest = e;
                shown = refl;
              });
              seen =
                  All-snoc (λ (n : ChainEdge). is_visited n.seq (w.seq ∷ f.visited) ≡ true) f.nodes
                    (reader_node depth (key rd) w) (still_seen w.seq f.visited f.nodes h.seen)
                    (unfold is_visited in ground arith);
              distinct =
                  IsDistinct-snoc f.visited f.nodes (reader_node depth (key rd) w) h.distinct h.seen
                    new;
            })
      ]

  follow_reads-Sound :
      (cur : ExecEvent) (depth : ℕ) (rds : List ResourceAccess) (f : Frontier)
      → Reaches t first start cur depth
      → All (λ rd. Memᴰ rd cur.reads) rds
      → Sound f
      → Sound (follow_reads t cur depth rds f)
  unfolding follow_reads
  follow_reads-Sound cur depth [] f r m h = h
  follow_reads-Sound cur depth (rd ∷ rds) f r m h =
      follow_reads-Sound cur depth rds
        (follow depth (key rd) (latest_ref_writer t (key rd) cur.seq) f) r m.1
        (follow-Sound cur depth rd f r m.0 h)

  expand-Sound :
      (fuel : ℕ) (f : Frontier) (nodes : List ChainEdge)
      → Sound f
      → expand t fuel f ≡ some nodes
      → All IsLink nodes × IsDistinct (λ (n : ChainEdge). n.seq) nodes
  unfolding expand
  expand-Sound zero f nodes h e = elim (List-cases f.queue) [
    | inl empty ↦ rw (← eq_of_some (rw (empty, expand) at e)) (h.linked, h.distinct)
    | inr (c, rest, q) ↦ cc (rw (q, expand) at e)
  ]
  expand-Sound (suc fuel) f nodes h e = elim (List-cases f.queue) [
    | inl empty ↦ rw (← eq_of_some (rw (empty, expand) at e)) (h.linked, h.distinct)
    | inr (c, rest, q) ↦
        let queued : All (λ (c : ExecEvent × ℕ). Reaches t first start c.0 c.1) (c ∷ rest) =
          rw q at h.queued in
        expand-Sound fuel (follow_reads t c.0 c.1 c.0.reads (record f { queue = rest })) nodes
          (follow_reads-Sound c.0 c.1 c.0.reads (record f { queue = rest }) queued.0
            (All-of_mem (λ rd. Memᴰ rd c.0.reads) c.0.reads (λ rd m. m))
            (record { queued = queued.1; linked = h.linked; seen = h.seen; distinct = h.distinct }))
          (rw (q, expand) at e)
  ]

-- Every node of the chain that `expandChain` returns shows the last reference writer, up to the
-- seq of an instruction reached from the first divergent one at the depth of the node, of a
-- resource that this instruction reads; and no two nodes have the same seq.
pub expand_chain_sound :
    (t : Tracer) (first : ExecEvent) (depth : ℕ) (visited : List ℤ) (nodes : List ChainEdge)
    → expand_chain t first depth visited ≡ some nodes
    → All (IsLink t first depth) nodes × IsDistinct (λ (n : ChainEdge). n.seq) nodes
unfolding expand_chain
expand_chain_sound t first depth visited nodes h =
    expand-Sound t first depth (suc (length t.ref_events))
      (record { queue = (first, depth) ∷ []; visited = visited; nodes = [] }) nodes
      (record { queued = (origin, tt); linked = tt; seen = tt; distinct = tt }) h
