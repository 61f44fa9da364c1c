-- ===== src/Api/Pools.antt =====
-- internal/api/api.go: the creation of a pool.
use wordbreak_backend.Base.{
  ℕ, ◌≡◌, refl, ◌∙◌, ◌⊎◌, inl, inr, Option, none, some, List, Option-cases,
}
use wordbreak_backend.Base.Decimal.{parse_int}
use wordbreak_backend.Base.Text.{Text, UnicodeTables}
use wordbreak_backend.Room.Services.{Reader, Writer}
use wordbreak_backend.Api.{Platform, Server, Response, error_json, admin_check}
use wordbreak_backend.Api.Admin.{
  CreatePoolRequest, PoolCreated, create_pool, pool_on_chain, handle_create_pool, positive,
  allowed_days,
}

module _ (w : Platform) ⦃u : UnicodeTables⦄ where
  abbrev pub IsRefused : Server w → Server w × Response PoolCreated → Type 0
  IsRefused s out = (status : ℕ) × (message : Text) × (out ≡ (s, error_json status message))

  -- The chain is called: all the checks before have passed.
  pub record IsAdmitted (reads : ℕ → List ℕ) (s : Server w) (token : Text)
      (body : Option CreatePoolRequest) (now : ℕ) (out : Server w × Response PoolCreated)
      : Type 0 where
    pub req : CreatePoolRequest
    pub reader : Reader
    pub sender : Writer
    pub fee : ℕ
    pub days : ℕ
    pub has_token : admin_check w s token ≡ none
    pub decoded : body ≡ some req
    pub has_fee : positive (parse_int req.entry_fee) ≡ some fee
    pub has_days : allowed_days req.days ≡ some days
    pub has_chain : s.chain ≡ some reader
    pub has_writer : s.writer ≡ some sender
    pub result : out ≡ create_pool w s reader sender reads fee days now

  on_chain_cases :
      (s : Server w) (writer : Option Writer) (chain : Option Reader) (reads : ℕ → List ℕ)
      (fee days now : ℕ)
      → IsRefused s (pool_on_chain w s writer chain reads fee days now)
        ⊎ ((c : Reader) × (wr : Writer) × (chain ≡ some c)
            × (writer ≡ some wr)
            × (pool_on_chain w s writer chain reads fee days now
                ≡ create_pool w s c wr reads fee days now))
  unfolding pool_on_chain
  on_chain_cases s (some wr) (some c) reads fee days now = inr (c, wr, refl, refl, refl)
  on_chain_cases s none c reads fee days now = inl (_, _, refl)
  on_chain_cases s (some wr) none reads fee days now = inl (_, _, refl)

  -- A request for a pool is refused at once, or goes on to the chain.
  pub handle_create_pool_cases :
      (reads : ℕ → List ℕ) (s : Server w) (token : Text) (body : Option CreatePoolRequest) (now : ℕ)
      → IsRefused s (handle_create_pool w reads s token body now)
        ⊎ IsAdmitted reads s token body now (handle_create_pool w reads s token body now)
  unfolding handle_create_pool
  handle_create_pool_cases reads s token none now = elim (Option-cases (admin_check w s token)) [
    | inr (why, bad) ↦ inl (rw (bad, handle_create_pool) (_, _, refl))
    | inl good ↦ inl (rw (good, handle_create_pool) (_, _, refl))
  ]
  handle_create_pool_cases reads s token (some req) now =
      elim (Option-cases (admin_check w s token)) [
        | inr (why, bad) ↦ inl (rw (bad, handle_create_pool) (_, _, refl))
        | inl good ↦ elim (Option-cases (positive (parse_int req.entry_fee))) [
          | inl bad ↦
              inl (rw (good, handle_create_pool) (rw (bad, handle_create_pool) (_, _, refl)))
          | inr (fee, paid) ↦ elim (Option-cases (allowed_days req.days)) [
            | inl bad ↦ inl (
                rw (good, handle_create_pool)
                  (rw (paid, handle_create_pool) (rw (bad, handle_create_pool) (_, _, refl))))
            | inr (days, allowed) ↦
                let reached : handle_create_pool w reads s token (some req) now
                    ≡ pool_on_chain w s s.writer s.chain reads fee days now =
                  rw (good, handle_create_pool)
                    (rw (paid, handle_create_pool) (rw (allowed, handle_create_pool) refl)) in
                elim (on_chain_cases s s.writer s.chain reads fee days now) [
                  | inl (status, message, e) ↦ inl (status, message, reached ∙ e)
                  | inr (c, wr, here, there, e) ↦ inr (record {
                    req = req;
                    reader = c;
                    sender = wr;
                    fee = fee;
                    days = days;
                    has_token = good;
                    decoded = refl;
                    has_fee = paid;
                    has_days = allowed;
                    has_chain = here;
                    has_writer = there;
                    result = reached ∙ e;
                  })
                ]
          ]
        ]
      ]
