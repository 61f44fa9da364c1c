-- ===== src/Api/Opened.antt =====
-- internal/api/api.go: the loop that registers the days of a pool.
use wordbreak_backend.Base.{
  ℕ, zero, suc, ◌+◌, ◌<◌, ◌≡◌, refl, ap, subst, ◌∙◌, inl, inr, true, some, arith, Bool-cases,
  length, get_elem?,
}
use wordbreak_backend.Base.Text.{Text, UnicodeTables, eq_text, eq_text_iff}
use wordbreak_backend.Base.Assoc.{lookup, lookup-insert, lookup-insert_self}
use wordbreak_backend.Store.{Store, Daily, open_paid_daily}
use wordbreak_backend.Api.{Platform, Server}
use wordbreak_backend.Api.Admin.{open_pool_day, open_days}

module _ (w : Platform) ⦃u : UnicodeTables⦄ where
  -- A day of the pool, as the store holds it.
  abbrev pub IsPoolDay : Store w.persister → Text → Text → ℕ → Type 0
  IsPoolDay st key round_id end_time =
      (d : Daily) × (lookup key st.dailies ≡ some d)
      × (d.paid ≡ true)
      × (d.round_id ≡ round_id)
      × (d.end_time ≡ end_time)

  opened_day :
      (s : Server w) (st : Store w.persister) (key round_id : Text) (end_time : ℕ)
      → IsPoolDay (open_pool_day w s st key round_id end_time).0 key round_id end_time
  unfolding open_pool_day open_paid_daily
  opened_day s st key round_id end_time = (_, lookup-insert_self key _ st.dailies, refl, refl, refl)

  still_open :
      (s : Server w) (st : Store w.persister) (key other round_id : Text) (end_time : ℕ)
      → IsPoolDay st key round_id end_time
      → IsPoolDay (open_pool_day w s st other round_id end_time).0 key round_id end_time
  unfolding open_pool_day open_paid_daily
  still_open s st key other round_id end_time (d, there, is_paid, same_id, same_end) =
      elim (Bool-cases (eq_text other key)) [
        | inl same ↦
            let e = (eq_text_iff other key).0 same in
            subst
              (λ k. IsPoolDay (open_pool_day w s st other round_id end_time).0 k round_id end_time)
              e (opened_day s st other round_id end_time)
        | inr differs ↦
            (d, lookup-insert other key _ st.dailies ∙ rw differs there, is_paid, same_id, same_end)
      ]

  kept_open :
      (s : Server w) (n today : ℕ) (key round_id : Text) (end_time : ℕ) (st : Store w.persister)
      → IsPoolDay st key round_id end_time
      → IsPoolDay (open_days w s n today round_id end_time st).0 key round_id end_time
  unfolding open_days
  kept_open s zero today key round_id end_time st h = h
  kept_open s (suc n) today key round_id end_time st h =
      kept_open s n (suc today) key round_id end_time _
        (still_open s st key (w.date_key today) round_id end_time h)

  pub open_days_lem :
      (s : Server w) (n today i : ℕ) (round_id : Text) (end_time : ℕ) (st : Store w.persister)
      → i < n
      → IsPoolDay
          (open_days w s n today round_id end_time st).0
          (w.date_key (today + i))
          round_id
          end_time
        × (get_elem? (open_days w s n today round_id end_time st).1 i
            ≡ some (w.date_key (today + i)))
  unfolding open_days
  open_days_lem s zero today i round_id end_time st h = absurd (omega arith)
  open_days_lem s (suc n) today zero round_id end_time st h =
      let same : today ≡ today + 0 = omega arith in
      (
        subst
            (λ k.
              IsPoolDay (open_days w s (suc n) today round_id end_time st).0 (w.date_key k) round_id
                end_time)
            same
            (kept_open s n (suc today) (w.date_key today) round_id end_time _
              (opened_day s st (w.date_key today) round_id end_time)),
        ap (λ k. some (w.date_key k)) same,
      )
  open_days_lem s (suc n) today (suc i) round_id end_time st h =
      let same : suc today + i ≡ today + suc i = omega arith in
      let rest =
        open_days_lem s n (suc today) i round_id end_time
          (open_pool_day w s st (w.date_key today) round_id end_time).0 (omega arith) in
      (
        subst
            (λ k.
              IsPoolDay (open_days w s (suc n) today round_id end_time st).0 (w.date_key k) round_id
                end_time)
            same rest.0,
        rest.1 ∙ ap (λ k. some (w.date_key k)) same,
      )

  pub length-open_days :
      (s : Server w) (n today : ℕ) (round_id : Text) (end_time : ℕ) (st : Store w.persister)
      → length (open_days w s n today round_id end_time st).1 ≡ n
  unfolding open_days
  length-open_days s zero today round_id end_time st = refl
  length-open_days s (suc n) today round_id end_time st =
      ap suc (length-open_days s n (suc today) round_id end_time _)
