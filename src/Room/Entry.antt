-- ===== src/Room/Entry.antt =====
-- Who comes into a staked room.
use wordbreak_backend.Base.{
  ℕ, ◌+◌, ◌<◌, ◌≡◌, refl, ap, ◌∙◌, inl, inr, ◌≢◌, true, Option, none, some, [], arith, length,
  Bool-cases, Option-cases, if◌then◌else◌,
}
use wordbreak_backend.Base.Text.{Text, eq_text, eq_text_iff, bytes}
use wordbreak_backend.Base.Assoc.{
  lookup, insert, has_key, lookup-insert, lookup-insert_ne, length-insert_new,
}
use wordbreak_backend.Room.{
  Room, Player, lobby, max_players, add_player, short_id, maybe_finish, snapshot,
}
use wordbreak_backend.Room.Services.{Addresses, Reader, ok, Reply-cases}
use wordbreak_backend.Room.Race.{join_room, stake_check}
use wordbreak_backend.Room.Submission.{join_cases}

-- The checks pass exactly for a wallet address that the contract, when asked, knows as entered in
-- the room's round.
pub stake_check-none :
    (eth : Addresses) (reader : Option Reader) (r : Room) (id : Text) (stake : ℕ)
    → r.stake ≡ some stake
    → stake_check eth reader r id ≡ none
    → (eth.is_hex_address id ≡ true)
      × ((c : Reader) × (reader ≡ some c)
          × (c.has_entered r.round_id (eth.hex_to_address id) ≡ ok true))
unfolding stake_check
stake_check-none eth reader r id stake s h = elim (Bool-cases (eth.is_hex_address id)) [
  | inr bad ↦ absurd (ground arith)
  | inl hex ↦ (
    hex,
    elim (Option-cases reader) [
      | inl gone ↦ absurd (ground arith)
      | inr (c, here) ↦ (
        c,
        here,
        elim (Reply-cases (c.has_entered r.round_id (eth.hex_to_address id))) [
          | inr (e, f) ↦ absurd (ground arith)
          | inl (b, f) ↦ ground arith
        ],
      )
    ],
  )
]

maybe_finish_players : (r : Room) (now : ℕ) → (maybe_finish r now).players ≡ r.players
unfolding maybe_finish
maybe_finish_players r now = ground arith

-- A call of `Join` makes a stranger a player of a staked room only if the id is a wallet address
-- that has entered the room's round on chain.
pub join_room_paid :
    (eth : Addresses) (reader : Option Reader) (r : Room) (id name : Text) (now stake : ℕ)
    → r.stake ≡ some stake
    → lookup id r.players ≡ none
    → has_key id (join_room eth reader r id name now).0.players ≡ true
    → (eth.is_hex_address id ≡ true)
      × ((c : Reader) × (reader ≡ some c)
          × (c.has_entered r.round_id (eth.hex_to_address id) ≡ ok true))
join_room_paid eth reader r id name now stake s absent h =
    elim (join_cases eth reader r id name now) [
      | inl (inl e) ↦ absurd (ground arith)
      | inl (inr e) ↦ absurd (ground (arith, maybe_finish_players r now))
      | inr c ↦ stake_check-none eth reader r id stake s c.stake_ok
    ]

stake_check_passes :
    (eth : Addresses) (c : Reader) (r : Room) (id : Text)
    → eth.is_hex_address id ≡ true
    → c.has_entered r.round_id (eth.hex_to_address id) ≡ ok true
    → stake_check eth (some c) r id ≡ none
unfolding stake_check
stake_check_passes eth c r id hex paid = ground arith

-- A stranger who passes the checks comes into a lobby with room left.
join_room_enters :
    (eth : Addresses) (reader : Option Reader) (r : Room) (id name : Text) (now : ℕ)
    → r.state ≡ lobby
    → lookup id r.players ≡ none
    → length r.players < max_players
    → stake_check eth reader r id ≡ none
    → (join_room eth reader r id name now).0 ≡ add_player r id name
unfolding join_room snapshot maybe_finish add_player
join_room_enters eth reader r id name now l absent room good = ground arith

add_player_adds :
    (r : Room) (id name : Text)
    → (p : Player) × ((add_player r id name).players ≡ insert id p r.players)
      × ((add_player r id name).state ≡ r.state)
      × ((add_player r id name).round_id ≡ r.round_id)
unfolding add_player
add_player_adds r id name = (
  record {
    id = id;
    name = if eq_text name [] then short_id id else bytes name;
    score = 0;
    words = 0;
    found = [];
  },
  refl,
  refl,
  refl,
)

-- One wallet may take two seats with one stake: in a lobby with room for two more, two ids that
-- are spelled differently and are not players yet, but stand for one address that has entered the
-- round, both come in.
pub join_room_alias :
    (eth : Addresses) (c : Reader) (r : Room) (a b name : Text) (now later : ℕ)
    → r.state ≡ lobby
    → length r.players + 1 < max_players
    → lookup a r.players ≡ none
    → lookup b r.players ≡ none
    → a ≢ b
    → eth.is_hex_address a ≡ true
    → eth.is_hex_address b ≡ true
    → eth.hex_to_address a ≡ eth.hex_to_address b
    → c.has_entered r.round_id (eth.hex_to_address a) ≡ ok true
    → let r₁ = (join_room eth (some c) r a name now).0 in
      let r₂ = (join_room eth (some c) r₁ b name later).0 in
      (has_key a r₂.players ≡ true)
      × (has_key b r₂.players ≡ true)
      × (length r₂.players ≡ length r.players + 2)
join_room_alias eth c r a b name now later l room na nb ne ha hb same paid =
    let first =
      join_room_enters eth (some c) r a name now l na (omega arith)
        (stake_check_passes eth c r a ha paid) in
    let (p, ps, st, ri) = add_player_adds r a name in
    let (q, qs, _, _) = add_player_adds (add_player r a name) b name in
    let grown : length (add_player r a name).players ≡ length r.players + 1 =
      omega (arith, ap length ps, length-insert_new a p r.players na) in
    let absent : lookup b (add_player r a name).players ≡ none =
      ap (lookup b) ps ∙ lookup-insert_ne a b p r.players ne ∙ nb in
    let paid' : c.has_entered (add_player r a name).round_id (eth.hex_to_address b) ≡ ok true =
      rw (ri, ← same) paid in
    let second =
      join_room_enters eth (some c) (add_player r a name) b name later (st ∙ l) absent (omega arith)
        (stake_check_passes eth c (add_player r a name) b hb paid') in
    rw (first, second, qs)
      (
        ground (
          arith,
          ap (lookup a) ps,
          lookup-insert b a q (add_player r a name).players,
          lookup-insert a a p r.players,
          eq_text_iff a a,
          eq_text_iff b a,
        ),
        ground (arith, lookup-insert b b q (add_player r a name).players, eq_text_iff b b),
        omega (arith, length-insert_new b q (add_player r a name).players absent),
      )
