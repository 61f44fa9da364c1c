-- ===== src/Store/Board.antt =====
-- The leaderboard: its order, its ranks and its rows.
use wordbreak_backend.Base.{
  ℕ, zero, suc, ◌+◌, ◌≤◌, ◌<◌, ◌≡◌, refl, ◌∙◌, true, false, some, List, [], ◌∷◌, arith, All, length,
  get_elem?, ap,
}
use wordbreak_backend.Base.Text.{Text}
use wordbreak_backend.Base.Assoc.{values}
use wordbreak_backend.Base.Sort.{sort, IsSorted, sort-IsSorted, length-sort}
use wordbreak_backend.Store.{Submission, Daily, LeaderboardEntry, rows, places_before, leaderboard}

places_before_asym : (a b : Submission) → places_before a b ≡ true → places_before b a ≡ false
unfolding places_before
places_before_asym a b h = ground (arith, h)

places_before_trans :
    (a b c : Submission)
    → places_before b a ≡ false
    → places_before c b ≡ false
    → places_before c a ≡ false
unfolding places_before
places_before_trans a b c h k = ground (arith, h, k)

places_before_score : (a b : Submission) → places_before b a ≡ false → b.score ≤ a.score
unfolding places_before
places_before_score a b h = ground (arith, h)

length-rows : (i : ℕ) (subs : List Submission) → length (rows i subs) ≡ length subs
unfolding rows
length-rows i [] = refl
length-rows i (s ∷ subs) = ap suc (length-rows (suc i) subs)

row_rank :
    (i k : ℕ) (subs : List Submission) (e : LeaderboardEntry)
    → get_elem? (rows i subs) k ≡ some e
    → e.rank ≡ suc (i + k)
unfolding rows
row_rank i k [] e h = absurd (cc h)
row_rank i zero (s ∷ subs) e h = ground (arith, h)
row_rank i (suc k) (s ∷ subs) e h = omega (arith, row_rank (suc i) k subs e h)

row_score :
    (i k n : ℕ) (subs : List Submission) (e : LeaderboardEntry)
    → All (λ (s : Submission). s.score ≤ n) subs
    → get_elem? (rows i subs) k ≡ some e
    → e.score ≤ n
unfolding rows
row_score i k n [] e a h = absurd (cc h)
row_score i zero n (s ∷ subs) e a h = ground (arith, h, a.0)
row_score i (suc k) n (s ∷ subs) e a h = row_score (suc i) k n subs e a.1 h

All-score :
    (a : Submission) (subs : List Submission)
    → All (λ b. places_before b a ≡ false) subs
    → All (λ (s : Submission). s.score ≤ a.score) subs
All-score a [] h = tt
All-score a (b ∷ subs) h = (places_before_score a b h.0, All-score a subs h.1)

rows_ordered :
    (i k n : ℕ) (subs : List Submission) (e f : LeaderboardEntry)
    → IsSorted places_before subs
    → k < n
    → get_elem? (rows i subs) k ≡ some e
    → get_elem? (rows i subs) n ≡ some f
    → f.score ≤ e.score
unfolding rows
rows_ordered i k n [] e f s l h g = absurd (cc h)
rows_ordered i k zero (x ∷ subs) e f s l h g = absurd (omega (arith, l))
rows_ordered i zero (suc n) (x ∷ subs) e f s l h g =
    ground (arith, h, row_score (suc i) n x.score subs f (All-score x subs s.0) g)
rows_ordered i (suc k) (suc n) (x ∷ subs) e f s l h g =
    rows_ordered (suc i) k n subs e f s.1 (omega (arith, l)) h g

pub leaderboard_rank :
    (d : Daily) (i : ℕ) (e : LeaderboardEntry)
    → get_elem? (leaderboard d) i ≡ some e
    → e.rank ≡ suc i
unfolding leaderboard
leaderboard_rank d i e h =
    omega (arith, row_rank 0 i (sort places_before (values d.submissions)) e h)

-- The ranks of a leaderboard count from one, and of two rows the later has no higher score.
pub leaderboard_ordered :
    (d : Daily) (i j : ℕ) (e f : LeaderboardEntry)
    → i < j
    → get_elem? (leaderboard d) i ≡ some e
    → get_elem? (leaderboard d) j ≡ some f
    → (e.rank ≡ suc i) × (f.rank ≡ suc j) × (f.score ≤ e.score)
unfolding leaderboard
leaderboard_ordered d i j e f l h g =
    let ids = sort places_before (values d.submissions) in
    (
      omega (arith, row_rank 0 i ids e h),
      omega (arith, row_rank 0 j ids f g),
      rows_ordered 0 i j ids e f
          (sort-IsSorted places_before places_before_asym places_before_trans
            (values d.submissions))
          l h g,
    )

-- A leaderboard has one row for each player who submitted.
pub length-leaderboard : (d : Daily) → length (leaderboard d) ≡ length d.submissions
unfolding leaderboard
length-leaderboard d =
    length-rows 0 (sort places_before (values d.submissions))
    ∙ length-sort places_before (values d.submissions)
    ∙ length-map d.submissions
  where
    length-map : (m : List (Text × Submission)) → length (values m) ≡ length m
    length-map [] = refl
    length-map (x ∷ m) = ap suc (length-map m)
