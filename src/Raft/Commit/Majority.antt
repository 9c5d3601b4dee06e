-- ===== src/Raft/Commit/Majority.antt =====
-- MaybeAdvanceCommitLocked of raft/raft_server.cc: the position that it commits is the largest one
-- that a majority of the nodes has reached.
use whisperlib.Prelude.{
  ℕ, zero, suc, ◌+◌, ◌-◌, ◌*◌, ◌/◌, ◌≤◌, ◌<◌, ◌≡◌, refl, ◌∙◌, ◌⊎◌, Bool, true, false, if◌then◌else◌,
  some, List, [], ◌∷◌, map, get_elem?, length, length-set, length-map, ap, arith, Bool-cases, inl,
  inr,
}
use whisperlib.Logio.Position.{LogPos, leb_pos, ltb_pos}
use whisperlib.Logio.Position.Order.{
  leb-ltb, leb_pos_trans, leb_pos_refl, leb_of_ltb, leb-ltb_pos_trans,
}
use whisperlib.Prelude.Outcome.{done, branch}
use whisperlib.Raft.State.{Server, is_leader}
use whisperlib.Raft.Persist.{save_state}
use whisperlib.Raft.Commit.{
  insert_pos, sort_pos, match_positions, maybe_advance_commit, advance_waiters,
}

-- How many positions have reached p.
unfoldable pub reached : LogPos → List LogPos → ℕ
reached p [] = 0
reached p (q ∷ qs) = if leb_pos p q then suc (reached p qs) else reached p qs

AllFrom : LogPos → List LogPos → Type 0
AllFrom p [] = Unit {0}
AllFrom p (q ∷ qs) = (leb_pos p q ≡ true) × AllFrom p qs

-- Each position is at most the ones after it.
IsSorted : List LogPos → Type 0
IsSorted [] = Unit {0}
IsSorted (q ∷ qs) = AllFrom q qs × IsSorted qs

AllFrom-mono : (p q : LogPos) (qs : List LogPos) → leb_pos p q ≡ true → AllFrom q qs → AllFrom p qs
unfolding AllFrom
AllFrom-mono p q [] h a = tt
AllFrom-mono p q (r ∷ rs) h a = (leb_pos_trans p q r h a.0, AllFrom-mono p q rs h a.1)

insert-AllFrom :
    (p q : LogPos) (qs : List LogPos)
    → leb_pos p q ≡ true
    → AllFrom p qs
    → AllFrom p (insert_pos q qs)
unfolding AllFrom insert_pos
insert-AllFrom p q [] h a = (h, tt)
insert-AllFrom p q (r ∷ rs) h a = ground (arith, insert-AllFrom p q rs h a.1)

insert-IsSorted : (p : LogPos) (qs : List LogPos) → IsSorted qs → IsSorted (insert_pos p qs)
unfolding IsSorted insert_pos AllFrom
insert-IsSorted p [] s = (tt, tt)
insert-IsSorted p (q ∷ qs) s = ground (
  arith,
  insert-IsSorted p qs s.1,
  insert-AllFrom q p qs,
  leb-ltb p q,
  leb_of_ltb q p,
  AllFrom-mono p q qs,
)

sort-IsSorted : (ps : List LogPos) → IsSorted (sort_pos ps)
unfolding sort_pos IsSorted
sort-IsSorted [] = tt
sort-IsSorted (p ∷ ps) = insert-IsSorted p (sort_pos ps) (sort-IsSorted ps)

reached-insert :
    (p q : LogPos) (qs : List LogPos) → reached p (insert_pos q qs) ≡ reached p (q ∷ qs)
unfolding reached insert_pos
reached-insert p q [] = refl
reached-insert p q (r ∷ rs) = ground (arith, reached-insert p q rs)

reached_cons :
    (p q : LogPos) (qs rs : List LogPos)
    → reached p qs ≡ reached p rs
    → reached p (q ∷ qs) ≡ reached p (q ∷ rs)
unfolding reached
reached_cons p q qs rs h = ground arith

-- Sorting changes no count.
reached-sort : (p : LogPos) (ps : List LogPos) → reached p (sort_pos ps) ≡ reached p ps
unfolding sort_pos
reached-sort p [] = refl
reached-sort p (q ∷ qs) =
    reached-insert p q (sort_pos qs) ∙ reached_cons p q (sort_pos qs) qs (reached-sort p qs)

length-insert_pos : (p : LogPos) (ps : List LogPos) → length (insert_pos p ps) ≡ suc (length ps)
unfolding insert_pos
length-insert_pos p [] = refl
length-insert_pos p (q ∷ qs) = ground (arith, length-insert_pos p qs)

length-sort : (ps : List LogPos) → length (sort_pos ps) ≡ length ps
unfolding sort_pos
length-sort [] = refl
length-sort (p ∷ ps) = length-insert_pos p (sort_pos ps) ∙ ap suc (length-sort ps)

reached_all : (p : LogPos) (qs : List LogPos) → AllFrom p qs → reached p qs ≡ length qs
unfolding reached AllFrom
reached_all p [] a = refl
reached_all p (q ∷ qs) a = ground (arith, reached_all p qs a.1)

reached-le-length : (p : LogPos) (qs : List LogPos) → reached p qs ≤ length qs
unfolding reached
reached-le-length p [] = omega arith
reached-le-length p (q ∷ qs) = ground (arith, reached-le-length p qs)

AllFrom-get :
    (p : LogPos) (qs : List LogPos) (i : ℕ) (x : LogPos)
    → AllFrom p qs
    → get_elem? qs i ≡ some x
    → leb_pos p x ≡ true
unfolding AllFrom
AllFrom-get p [] i x a e = cc
AllFrom-get p (q ∷ qs) zero x a e = ground arith
AllFrom-get p (q ∷ qs) (suc i) x a e = AllFrom-get p qs i x a.1 e

-- Of a sorted list, the entries from index i on have reached the entry there.
reached_from :
    (qs : List LogPos) (i : ℕ) (x : LogPos)
    → IsSorted qs
    → get_elem? qs i ≡ some x
    → length qs ≤ i + reached x qs
unfolding IsSorted reached
reached_from [] i x s e = cc
reached_from (q ∷ qs) zero x s e = ground (arith, reached_all q qs s.0, leb_pos_refl q)
reached_from (q ∷ qs) (suc i) x s e = ground (arith, reached_from qs i x s.1 e)

-- A position above that entry is reached by entries behind index i only.
reached_above :
    (qs : List LogPos) (i : ℕ) (x p : LogPos)
    → IsSorted qs
    → get_elem? qs i ≡ some x
    → ltb_pos x p ≡ true
    → reached p qs + i < length qs
unfolding IsSorted reached
reached_above [] i x p s e h = cc
reached_above (q ∷ qs) zero x p s e h = ground (arith, leb-ltb p q, reached-le-length p qs)
reached_above (q ∷ qs) (suc i) x p s e h = ground (
  arith,
  reached_above qs i x p s.1 e h,
  AllFrom-get q qs i x s.0 e,
  leb_pos_trans p q x,
  leb-ltb p x,
)

get_elem?_total {ℓ} :
    {A : Type ℓ} (xs : List A) (i : ℕ) → i < length xs → (x : A) × (get_elem? xs i ≡ some x)
get_elem?_total [] i h = elim h [ ]
get_elem?_total (x ∷ xs) zero h = (x, refl)
get_elem?_total (x ∷ xs) (suc i) h = get_elem?_total xs i (omega arith)

-- The outcome of an attempt to commit.
pub record Commits {L : Type 0} (s : Server L) (r : Server L × Bool) : Type 0 where
  -- Either the position moves, up to one that a majority has reached, or the server is as it was.
  pub move :
      ((r.1 ≡ true)
        × (ltb_pos s.commit_pos r.0.commit_pos ≡ true)
        × (length s.nodes < 2 * reached r.0.commit_pos (match_positions s)))
      ⊎ ((r.1 ≡ false) × (r.0 ≡ s))
  -- No higher position is reached by a majority.
  pub largest :
      (p : LogPos)
      → (leb_pos p r.0.commit_pos ≡ true) ⊎ (2 * reached p (match_positions s) ≤ length s.nodes)

module _ {L : Type 0} (s : Server L) where
  length-match_positions : length (match_positions s) ≡ length s.nodes
  unfolding match_positions
  length-match_positions =
      length-set (map (λ n. n.match_log_pos) s.nodes) s.node_id s.last_log_pos
      ∙ length-map s.nodes (λ n. n.match_log_pos)

  -- The entry in the middle of the sorted positions.
  middle_lem :
      (x : LogPos)
      → get_elem? (sort_pos (match_positions s)) ((length (match_positions s) - 1) / 2) ≡ some x
      → 0 < length s.nodes
      → (length s.nodes < 2 * reached x (match_positions s))
        × ((p : LogPos) → ltb_pos x p ≡ true → 2 * reached p (match_positions s) ≤ length s.nodes)
  middle_lem x e some_node =
      let ps = match_positions s in
      let sorted = sort-IsSorted ps in
      (
        omega (
          arith,
          reached_from (sort_pos ps) ((length ps - 1) / 2) x sorted e,
          reached-sort x ps,
          length-sort ps,
          length-match_positions,
        ),
        λ p h. omega (
          arith,
          reached_above (sort_pos ps) ((length ps - 1) / 2) x p sorted e h,
          reached-sort p ps,
          length-sort ps,
          length-match_positions,
        ),
      )

  -- A leader of a cluster that has nodes always finishes the attempt: the commit position moves, up
  -- only, to the largest position that a majority of the nodes has reached, or stays if that is no
  -- higher.
  pub maybe_advance_commit_lem :
      is_leader s.role ≡ true
      → 0 < length s.nodes
      → (r : Server L × Bool) × (maybe_advance_commit s ≡ done r) × Commits s r
  unfolding maybe_advance_commit branch advance_waiters save_state
  maybe_advance_commit_lem leads some_node =
      let (x, e) =
        get_elem?_total (sort_pos (match_positions s)) ((length (match_positions s) - 1) / 2)
          (omega (arith, length-sort (match_positions s), length-match_positions)) in
      let (most, above) = middle_lem x e some_node in
      elim (Bool-cases (leb_pos x s.commit_pos)) [
        | inl low ↦ (
          (s, false),
          rw (leads, e, low, branch),
          record {
            move = inr (refl, refl);
            largest = λ p. elim (Bool-cases (leb_pos p s.commit_pos)) [
              | inl under ↦ inl under
              | inr over ↦ inr (
                  above p (
                    leb-ltb_pos_trans x s.commit_pos p low
                      (ground (arith, leb-ltb p s.commit_pos))))
            ];
          },
        )
        | inr high ↦ (
          (advance_waiters (save_state (record s { commit_pos = x })), true),
          rw (leads, e, high, branch),
          record {
            move = inl (refl, ground (arith, leb-ltb x s.commit_pos), most);
            largest = λ p. elim (Bool-cases (leb_pos p x)) [
              | inl under ↦ inl under
              | inr over ↦ inr (above p (ground (arith, leb-ltb p x)))
            ];
          },
        )
      ]
