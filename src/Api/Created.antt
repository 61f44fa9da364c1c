-- ===== src/Api/Created.antt =====
-- internal/api/api.go: what a pool that was created consists of, on chain and in the store.
use wordbreak_backend.Base.{
  ℕ, zero, suc, ◌+◌, ◌*◌, ◌/◌, ◌<◌, ◌≤◌, ◌≡◌, ap, subst, ◌∙◌, inl, inr, false, Option, some, List,
  arith, Bool-cases,
}
use wordbreak_backend.Base.Int.{ℤ, pos}
use wordbreak_backend.Base.Decimal.{parse_int}
use wordbreak_backend.Base.Text.{Text, UnicodeTables}
use wordbreak_backend.Room.{second}
use wordbreak_backend.Room.Manager.{big_endian}
use wordbreak_backend.Room.Services.{Reader, Writer, ok, Reply-cases}
use wordbreak_backend.Api.{Platform, Server, Response, ok_json, day}
use wordbreak_backend.Api.Admin.{
  CreatePoolRequest, PoolCreated, register_pool, create_pool, handle_create_pool, fresh_round_id,
  positive, allowed_days,
}
use wordbreak_backend.Api.Pools.{handle_create_pool_cases}

free_round :
    (n : ℕ) (c : Reader) (reads : ℕ → List ℕ) (id : ℕ)
    → fresh_round_id n c reads ≡ ok id
    → c.round_exists id ≡ ok false
unfolding fresh_round_id
free_round zero c reads id h = absurd (cc h)
free_round (suc n) c reads id h =
    let tried = big_endian 0 (reads n) / 2 in
    elim (Reply-cases (c.round_exists tried)) [
      | inr (e, bad) ↦ absurd (ground arith)
      | inl (exists, told) ↦ elim (Bool-cases exists) [
        | inl taken ↦ free_round n c reads id (ground arith)
        | inr free ↦
            let same : tried ≡ id = ground arith in
            subst (λ (k : ℕ). c.round_exists k ≡ ok false) same (told ∙ ap ok free)
      ]
    ]

positive_lem : (z : Option ℤ) (n : ℕ) → positive z ≡ some n → (0 < n) × (z ≡ some (pos n))
positive_lem z n h = ground arith

allowed_days_lem : (z : ℤ) (n : ℕ) → allowed_days z ≡ some n → (1 ≤ n) × (n ≤ 90) × (z ≡ pos n)
allowed_days_lem z n h = ground arith

module _ (w : Platform) ⦃u : UnicodeTables⦄ where
  -- The round that was opened on chain for a pool, and its registration.
  pub record IsCreated (reads : ℕ → List ℕ) (s : Server w) (body : Option CreatePoolRequest)
      (now : ℕ) (out : Server w × Response PoolCreated) : Type 0 where
    pub req : CreatePoolRequest
    pub reader : Reader
    pub sender : Writer
    pub fee : ℕ
    pub days : ℕ
    pub id : ℕ
    pub decoded : body ≡ some req
    pub has_fee : parse_int req.entry_fee ≡ some (pos fee)
    pub fee_positive : 0 < fee
    pub has_days : req.days ≡ pos days
    pub days_bounds : (1 ≤ days) × (days ≤ 90)
    pub has_chain : s.chain ≡ some reader
    pub has_writer : s.writer ≡ some sender
    pub was_free : reader.round_exists id ≡ ok false
    pub sent : sender.create_round id fee ((now + days * day) / second) ≡ ok tt
    pub result : register_pool w s id fee days now ≡ out

  -- A pool is created only if the request decodes, with a fee of at least one and 1 to 90 days, and
  -- the server has a chain client and a writer; then a round that did not exist before was opened
  -- on chain with this fee, until that many days from now, and its days were registered.
  pub create_pool-IsCreated :
      (reads : ℕ → List ℕ) (s s' : Server w) (token : Text) (body : Option CreatePoolRequest)
      (now : ℕ) (r : PoolCreated)
      → handle_create_pool w reads s token body now ≡ (s', ok_json r)
      → IsCreated reads s body now (s', ok_json r)
  unfolding create_pool
  create_pool-IsCreated reads s s' token body now r h =
      elim (handle_create_pool_cases w reads s token body now) [
        | inl (status, message, e) ↦ absurd (ground arith)
        | inr a ↦ elim (Reply-cases (fresh_round_id 5 a.reader reads)) [
          | inr (e, bad) ↦ absurd (ground (arith, a.result))
          | inl (id, got) ↦
              elim (Reply-cases (a.sender.create_round id a.fee ((now + a.days * day) / second))) [
                | inr (e, bad) ↦ absurd (ground (arith, a.result))
                | inl (done, sent) ↦
                    let (some_fee, whole) =
                      positive_lem (parse_int a.req.entry_fee) a.fee a.has_fee in
                    let (least, most, same) = allowed_days_lem a.req.days a.days a.has_days in
                    record {
                      req = a.req;
                      reader = a.reader;
                      sender = a.sender;
                      fee = a.fee;
                      days = a.days;
                      id = id;
                      decoded = a.decoded;
                      has_fee = whole;
                      fee_positive = some_fee;
                      has_days = same;
                      days_bounds = (least, most);
                      has_chain = a.has_chain;
                      has_writer = a.has_writer;
                      was_free = free_round 5 a.reader reads id got;
                      sent = sent;
                      result = ground (arith, a.result);
                    }
              ]
        ]
      ]
