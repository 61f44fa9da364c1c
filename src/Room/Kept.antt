-- ===== src/Room/Kept.antt =====
-- Each call on a room of the manager keeps every room valid.
use wordbreak_backend.Base.{
  ℕ, ◌≡◌, refl, subst, sym, inl, inr, Option, some, arith, Option-cases, Bool-cases,
}
use wordbreak_backend.Base.Text.{Text, UnicodeTables, to_upper, has_text, eq_text}
use wordbreak_backend.Base.Assoc.{lookup, lookup-empty, has_key-empty, lookup-insert, lookup-delete}
use wordbreak_backend.Rack.{Rng}
use wordbreak_backend.Room.{Room, Player}
use wordbreak_backend.Room.Services.{Addresses, Services}
use wordbreak_backend.Room.Invariant.{IsValid, snapshot-IsValid}
use wordbreak_backend.Room.Moves.{join_room-IsValid, start_room-IsValid, submit_room-IsValid}
use wordbreak_backend.Room.Manager.{
  Manager, CreateOpts, put_room, drop, find_room, get, join, start, submit, new_room,
}

module _ ⦃u : UnicodeTables⦄ where
  -- Every room that the manager holds is valid.
  abbrev pub AllValid : Manager → Type 0
  AllValid m = (code : Text) (r : Room) → lookup code m.rooms ≡ some r → IsValid r

  pub put_room-AllValid :
      (m : Manager) (code : Text) (r : Room) → IsValid r → AllValid m → AllValid (put_room m code r)
  put_room-AllValid m code r v all j q e = elim (Bool-cases (eq_text code j)) [
    | inl same ↦
        let known : r ≡ q = ground (arith, lookup-insert code j r m.rooms) in subst IsValid known v
    | inr other ↦ all j q (ground (arith, lookup-insert code j r m.rooms))
  ]

  pub get-AllValid :
      (m : Manager) (code viewer : Text) (now : ℕ) → AllValid m → AllValid (get m code viewer now).0
  unfolding get find_room
  get-AllValid m code viewer now all = elim (Option-cases (lookup (to_upper code) m.rooms)) [
    | inl e ↦ rw (e, get) all
    | inr (r, e) ↦
        rw (e, get)
          (put_room-AllValid m (to_upper code) _ (snapshot-IsValid r viewer now (all _ r e)) all)
  ]

  pub join-AllValid :
      (eth : Addresses) (s : Services) (m : Manager) (code id name : Text) (now : ℕ)
      → AllValid m
      → AllValid (join eth s m code id name now).0
  unfolding join find_room
  join-AllValid eth s m code id name now all =
      elim (Option-cases (lookup (to_upper code) m.rooms)) [
        | inl e ↦ rw (e, join) all
        | inr (r, e) ↦
            rw (e, join)
              (put_room-AllValid m (to_upper code) _
                (join_room-IsValid eth s.reader r id name now (all _ r e)) all)
      ]

  pub start-AllValid :
      (rng : Rng) (g : rng.Source) (m : Manager) (code id : Text) (now : ℕ)
      → AllValid m
      → AllValid (start rng g m code id now).0
  unfolding start find_room
  start-AllValid rng g m code id now all = elim (Option-cases (lookup (to_upper code) m.rooms)) [
    | inl e ↦ rw (e, start) all
    | inr (r, e) ↦
        rw (e, start)
          (put_room-AllValid m (to_upper code) _ (start_room-IsValid rng g r id now (all _ r e))
            all)
  ]

  pub submit-AllValid :
      (m : Manager) (code id word : Text) (now : ℕ)
      → AllValid m
      → AllValid (submit m code id word now).0
  unfolding submit find_room
  submit-AllValid m code id word now all = elim (Option-cases (lookup (to_upper code) m.rooms)) [
    | inl e ↦ rw (e, submit) all
    | inr (r, e) ↦
        rw (e, submit)
          (put_room-AllValid m (to_upper code) _ (submit_room-IsValid r id word now (all _ r e))
            all)
  ]

  pub new_room-IsValid :
      (m : Manager) (code id : Text) (opts : CreateOpts) → IsValid (new_room m code id opts)
  unfolding new_room
  new_room-IsValid m code id opts = record {
    distinct = tt;
    bounded = omega arith;
    sized = refl;
    seated = λ j. unfold has_text in sym (has_key-empty Player j);
    tallies = λ j p e. absurd (cc (lookup-empty Player j, e));
    fresh = λ j p l e. absurd (cc (lookup-empty Player j, e));
    settled_done = λ h. absurd (h refl);
  }

  pub opened-IsValid :
      (r : Room) (round_id : Option ℕ) (ends_at : ℕ)
      → IsValid r
      → IsValid (record r { round_id = round_id; stake_ends_at = ends_at })
  opened-IsValid r round_id ends_at v = record {
    distinct = v.distinct;
    bounded = v.bounded;
    sized = v.sized;
    seated = v.seated;
    tallies = v.tallies;
    fresh = v.fresh;
    settled_done = v.settled_done;
  }

  pub drop-AllValid : (m : Manager) (code : Text) → AllValid m → AllValid (drop m code)
  drop-AllValid m code all j q e = all j q (ground (arith, lookup-delete code j m.rooms))
