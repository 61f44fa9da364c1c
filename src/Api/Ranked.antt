-- ===== src/Api/Ranked.antt =====
-- internal/api/api.go: the rank that a player is told after a submission.
use wordbreak_backend.Base.{
  ℕ, zero, suc, ◌≤◌, ◌≡◌, refl, sym, subst, ap, ◌∙◌, inl, inr, not, Option, some, List, [], ◌∷◌,
  arith, Bool-cases, Option-cases, In, length, get_elem?, ◌==◌, ltb, true,
}
use wordbreak_backend.Base.Text.{Text, UnicodeTables}
use wordbreak_backend.Base.Assoc.{lookup, lookup-insert_self, In-of_lookup, values}
use wordbreak_backend.Base.Sort.{sort, In-sort_of_In}
use wordbreak_backend.Game
use wordbreak_backend.Store.{
  Store, Submission, Daily, LeaderboardEntry, rows, places_before, leaderboard, submit_daily, lower,
  Persister,
}
use wordbreak_backend.Store.Board.{leaderboard_ordered, leaderboard_rank}
use wordbreak_backend.Store.Best.{is_beaten_cases}
use wordbreak_backend.Store.Keyed.{ByAddress, AllKeyed, get_or_create-AllKeyed}
use wordbreak_backend.Store.Steady.{get_or_create_held}
use wordbreak_backend.Api.{Platform, Server, Response, ok_json, error_json}
use wordbreak_backend.Api.Days.{
  DailySubmitRequest, DailyResult, handle_daily_submit, score_day, rank_of, open_day, today_key,
  entry_gate,
}

-- A result that is held has a row.
row_there :
    (subs : List Submission) (i : ℕ) (s : Submission)
    → In s subs
    → (k : ℕ) × (e : LeaderboardEntry) × (get_elem? (rows i subs) k ≡ some e)
      × (e.address ≡ s.address)
      × (e.score ≡ s.score)
unfolding rows
row_there [] i s m = absurd m
row_there (t ∷ subs) i s (inl here) = (
  zero,
  _,
  refl,
  ap (λ (x : Submission). x.address) (sym here),
  ap (λ (x : Submission). x.score) (sym here),
)
row_there (t ∷ subs) i s (inr later) =
    let (k, e, there, a, b) = row_there subs (suc i) s later in (suc k, e, there, a, b)

module _ (w : Platform) where
  -- The loop stops at the first row of the wallet.
  rank_of_lem :
      (rows : List LeaderboardEntry) (k : ℕ) (address : Text) (e : LeaderboardEntry)
      → get_elem? rows k ≡ some e
      → w.eth.hex_to_address e.address ≡ w.eth.hex_to_address address
      → (j : ℕ) × (f : LeaderboardEntry) × (j ≤ k)
        × (get_elem? rows j ≡ some f)
        × (w.eth.hex_to_address f.address ≡ w.eth.hex_to_address address)
        × (rank_of w address rows ≡ f.rank)
  unfolding rank_of
  rank_of_lem [] k address e h same = absurd (cc h)
  rank_of_lem (x ∷ rows) zero address e h same =
      let here : w.eth.hex_to_address x.address ≡ w.eth.hex_to_address address = ground arith in
      let found : (w.eth.hex_to_address x.address == w.eth.hex_to_address address) ≡ true =
        ground arith in
      (zero, x, omega arith, refl, here, rw found refl)
  rank_of_lem (x ∷ rows) (suc k) address e h same =
      elim (Bool-cases (w.eth.hex_to_address x.address == w.eth.hex_to_address address)) [
        | inl here ↦ (zero, x, omega arith, refl, ground arith, rw here refl)
        | inr other ↦
            let (j, f, le, there, wallet, rank) = rank_of_lem rows k address e h same in
            (suc j, f, omega (arith, le), there, wallet, rw other rank)
      ]

-- What a player holds after a submission: a result as good, of the same address but for case.
submitted :
    (p : Persister) (db : Option p.Db) (d : Daily) (s : Submission)
    → ByAddress d.submissions
    → (b : Submission) × In b (values (submit_daily p db d s).1.submissions)
      × (lower b.address ≡ lower s.address)
      × (s.score ≤ b.score)
unfolding submit_daily
submitted p db d s keyed = elim (is_beaten_cases d s) [
  | inl (beaten, (b, there, better)) ↦
      rw beaten (b, In-of_lookup _ d.submissions b there, sym (keyed _ b there), better)
  | inr (best, _) ↦ rw best (
    s,
    In-of_lookup (lower s.address) _ s (lookup-insert_self (lower s.address) s d.submissions),
    refl,
    omega arith,
  )
]

module _ (w : Platform) ⦃u : UnicodeTables⦄ where
  -- The row that a rank stands for: of the wallet of `address`, with `score` at least.
  abbrev pub IsRank : Daily → Text → ℕ → ℕ → Type 0
  IsRank d address score rank =
      (j : ℕ) × (e : LeaderboardEntry) × (get_elem? (leaderboard d) j ≡ some e)
      × (e.rank ≡ rank)
      × (rank ≡ suc j)
      × (w.eth.hex_to_address e.address ≡ w.eth.hex_to_address address)
      × (score ≤ e.score)

  rank_of-IsRank :
      (d : Daily) (k : ℕ) (address : Text) (e : LeaderboardEntry) (score : ℕ)
      → get_elem? (leaderboard d) k ≡ some e
      → w.eth.hex_to_address e.address ≡ w.eth.hex_to_address address
      → score ≤ e.score
      → IsRank d address score (rank_of w address (leaderboard d))
  rank_of-IsRank d k address e score there same good =
      let (j, f, le, here, wallet, rank) = rank_of_lem w (leaderboard d) k address e there same in
      elim (Bool-cases (ltb j k)) [
        | inl before ↦
            let (a, b, c) = leaderboard_ordered d j k f e (ground arith) here there in
            (j, f, here, sym rank, rank ∙ a, wallet, omega (arith, c, good))
        | inr at_k ↦
            let exact : j ≡ k = ground (arith, le) in
            let one : f ≡ e = ground (arith, here, there, ap (get_elem? (leaderboard d)) exact) in
            (j, f, here, sym rank, rank ∙ leaderboard_rank d j f here, wallet, rw one good)
      ]

  -- What a scored reply says of the day that the server holds then.
  abbrev pub IsAnswered : Text → Server w × Response DailyResult → Type 0
  IsAnswered address (s, ok_json r) =
      (d : Daily) × (lookup r.date_key s.store.dailies ≡ some d) × IsRank d address r.score r.rank
  IsAnswered address (s, error_json status e) = Unit {0}

  score_day-IsAnswered :
      ((a b : Text) → lower a ≡ lower b → w.eth.hex_to_address a ≡ w.eth.hex_to_address b)
      → (s : Server w) (st : Store w.persister) (d : Daily) (date_key : Text)
        (req : DailySubmitRequest) (now : ℕ)
      → ByAddress d.submissions
      → IsAnswered req.address (score_day w s (st, d) date_key req now)
  unfolding score_day
  score_day-IsAnswered same_wallet s st d date_key req now keyed =
      let result = Game.score s.dict d.letters req.words in
      let sub : Submission = record {
        address = req.address;
        score = result.total;
        words = length result.accepted;
        at_time = now;
      } in
      let d' = (submit_daily w.persister st.persist d sub).1 in
      let (b, held, same, good) = submitted w.persister st.persist d sub keyed in
      let (k, e, there, who, points) =
        row_there (sort places_before (values d'.submissions)) 0 b
          (In-sort_of_In places_before b (values d'.submissions) held) in
      (
        d',
        lookup-insert_self date_key d' st.dailies,
        rank_of-IsRank d' k req.address e result.total (unfold leaderboard in there)
            (ap w.eth.hex_to_address who ∙ same_wallet b.address req.address same)
            (omega (arith, good, points)),
      )

  submit-IsAnswered :
      ((a b : Text) → lower a ≡ lower b → w.eth.hex_to_address a ≡ w.eth.hex_to_address b)
      → (s : Server w) (req : DailySubmitRequest) (now : ℕ) → AllKeyed s.store.dailies
      → IsAnswered req.address (handle_daily_submit w s (some req) now)
  unfolding handle_daily_submit
  submit-IsAnswered same_wallet s req now all =
      let (st, d) = open_day w s (today_key w now) in
      elim (Bool-cases (w.eth.is_hex_address req.address)) [
        | inr bad ↦ rw (ap not bad) tt
        | inl good ↦ elim (Option-cases (entry_gate w s.chain d req.address now)) [
          | inr (why, closed) ↦ rw (ap not good) (rw (closed, handle_daily_submit) tt)
          | inl opens ↦
              let keyed = get_or_create-AllKeyed w.persister s.store (today_key w now) _ all in
              let held = get_or_create_held w.persister s.store (today_key w now) _ in
              rw (ap not good) (
                rw (opens, handle_daily_submit)
                  (score_day-IsAnswered same_wallet s st d (today_key w now) req now
                    (keyed (today_key w now) d held).1))
        ]
      ]

  -- The rank in the reply to a submission that is scored is that of a row of the day's
  -- leaderboard as the server then holds it: the row stands at that place, counted from one, is of
  -- the sender's wallet, and has at least the score of the reply. Addresses that differ in case
  -- only are of one wallet, and the rounds held before are under their dates and their results
  -- under their addresses.
  pub submit_ranked :
      ((a b : Text) → lower a ≡ lower b → w.eth.hex_to_address a ≡ w.eth.hex_to_address b)
      → (s : Server w) (req : DailySubmitRequest) (now : ℕ) (s' : Server w) (r : DailyResult)
      → AllKeyed s.store.dailies
      → handle_daily_submit w s (some req) now ≡ (s', ok_json r)
      → (d : Daily) × (lookup r.date_key s'.store.dailies ≡ some d)
        × IsRank d req.address r.score r.rank
  submit_ranked same_wallet s req now s' r all h =
      subst (IsAnswered req.address) h (submit-IsAnswered same_wallet s req now all)
