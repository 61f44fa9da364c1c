-- ===== src/Api/Puzzles.antt =====
-- internal/api/api.go: what the replies of the solo game promise, from the query to the words.
use wordbreak_backend.Base.{
  ℕ, zero, suc, ◌*◌, ◌≤◌, ◌≡◌, refl, sym, subst, ◌⊎◌, inl, inr, ◌↔◌, List, [], In, Distinct, length,
  max, ◌∙◌, arith,
}
use wordbreak_backend.Base.Int.{ℤ, pos, negsuc}
use wordbreak_backend.Base.Text.{Text, UnicodeTables, IsUpperAlpha, count, to_upper_of_IsUpperAlpha}
use wordbreak_backend.Dictionary.{Dictionary, all_words, find_words}
use wordbreak_backend.Dictionary.Words.{In-find_words}
use wordbreak_backend.Rack
use wordbreak_backend.Rack.{max_tries, draw_rack}
use wordbreak_backend.Rack.Playable.{candidates, generate-Found}
use wordbreak_backend.Rack.Balance.{draw_rack_lem}
use wordbreak_backend.Grid.{new_trie}
use wordbreak_backend.Grid.Board
use wordbreak_backend.Grid.Track.{IsTraceable}
use wordbreak_backend.Grid.Index.{IsOneOf}
use wordbreak_backend.Grid.Generated.{generate-IsSolved}
use wordbreak_backend.Api.{Platform, Server, ok_json, int_query, clamp_size, clamp_grid_size}
use wordbreak_backend.Api.Solo.{SoloGrid, SoloRack, handle_solo_grid, handle_solo_rack}

clamp_grid_size_bounds : (k : ℤ) → (4 ≤ clamp_grid_size k) × (clamp_grid_size k ≤ 6)
unfolding clamp_grid_size
clamp_grid_size_bounds (pos n) = ground arith
clamp_grid_size_bounds (negsuc n) = omega arith

clamp_size_bounds : (k : ℤ) → (4 ≤ clamp_size k) × (clamp_size k ≤ 8)
unfolding clamp_size
clamp_size_bounds (pos n) = ground arith
clamp_size_bounds (negsuc n) = omega arith

-- What a reply with a board promises: the board is a square of 4 to 6 cells a side, or empty; its
-- letters are A-Z; its words are those of the dictionary that it traces, each once, and are
-- counted.
pub record IsSoloGrid (d : Dictionary) (r : SoloGrid) : Type 0 where
  pub square :
      (r.width ≡ r.height)
      × ((4 ≤ r.width) × (r.width ≤ 6) × (length r.letters ≡ r.width * r.width) ⊎ (r.letters ≡ []))
  pub upper : IsUpperAlpha r.letters
  pub once : Distinct r.words
  pub counted : r.word_count ≡ length r.words
  pub traced :
      (x : Text) → In x r.words ↔ IsTraceable r.letters r.width r.height x × IsOneOf (all_words d) x

-- The words of the dictionary that the letters spell.
abbrev pub IsSpelled : Dictionary → Text → List Text → Type 0
IsSpelled d letters words =
    (x : Text)
    → In x words ↔ (In x (all_words d) × IsUpperAlpha x × ((c : ℕ) → count c x ≤ count c letters))

-- The same for a rack: 4 to 8 letters with the words of the dictionary that they spell, or neither
-- letters nor words.
pub record IsSoloRack (d : Dictionary) (r : SoloRack) : Type 0 where
  pub sized :
      (4 ≤ length r.letters) × (length r.letters ≤ 8) × IsSpelled d r.letters r.words
      ⊎ (r.letters ≡ []) × (r.words ≡ [])
  pub upper : IsUpperAlpha r.letters
  pub counted : r.word_count ≡ length r.words

module _ (w : Platform) ⦃u : UnicodeTables⦄ where
  -- What `generate` returns for a board of 4 to 6 cells a side is what the reply promises.
  grid_reply :
      (d : Dictionary) (n : ℕ) (g : w.rng.Source)
      → 4 ≤ n
      → n ≤ 6
      → let res = Board.generate w.rng (new_trie (all_words d)) n n g in
        IsSoloGrid d (record {
          letters = res.letters;
          width = res.width;
          height = res.height;
          word_count = length res.words;
          words = res.words;
        })
  grid_reply d n g lo hi =
      let good = generate-IsSolved w.rng (all_words d) n n g (cells n lo hi).0 (cells n lo hi).1 in
      record {
        square = elim good.1 [
          | inl (a, b, c) ↦ (a ∙ sym b, inl (omega (arith, a), omega (arith, a), rw a c))
          | inr (a, b, c) ↦ (a ∙ sym b, inr c)
        ];
        upper = good.0.upper;
        once = good.0.once;
        counted = refl;
        traced = good.0.traced;
      }
    where
      cells : (n : ℕ) → 4 ≤ n → n ≤ 6 → (3 ≤ n * n) × (n * n ≤ 64)
      cells n lo hi = grind arith

  -- On a server whose trie is built from its dictionary, every reply of the solo grid shows a
  -- square board of 4 to 6 letters a side, A-Z, or an empty one, and the words with it, each listed
  -- once, are exactly those of the dictionary that can be traced on this board.
  pub solo_grid-IsSoloGrid :
      (g : w.rng.Source) (s : Server w) (query : Text)
      → s.grid_trie ≡ new_trie (all_words s.dict)
      → (r : SoloGrid) × (handle_solo_grid w g s query ≡ ok_json r) × IsSoloGrid s.dict r
  unfolding handle_solo_grid Board.generate_solo
  solo_grid-IsSoloGrid g s query built =
      let (lo, hi) = clamp_grid_size_bounds (int_query query s.cfg.solo_grid_size) in
      rw (built, handle_solo_grid) (_, refl, grid_reply s.dict _ g lo hi)

  -- What `generate` returns for a rack: a rack that was drawn, or none at all.
  rack_drawn :
      (d : Dictionary) (n k : ℕ) (g : w.rng.Source) (r : Rack.Result)
      → In r (candidates w.rng d n k g)
      → (length r.letters ≡ max n 2) × IsUpperAlpha r.letters × (r.words ≡ find_words d r.letters)
  rack_drawn d n zero g r m = absurd m
  rack_drawn d n (suc k) g r (inl e) =
      let one = draw_rack_lem w.rng n g in rw e (one.0, one.2, refl)
  rack_drawn d n (suc k) g r (inr m) = rack_drawn d n k (draw_rack w.rng n g).1 r m

  found-IsSpelled :
      (d : Dictionary) (r : Rack.Result)
      → IsUpperAlpha r.letters
      → r.words ≡ find_words d r.letters
      → IsSpelled d r.letters r.words
  unfolding all_words
  found-IsSpelled d r upper same x =
      subst
        (λ (t : Text).
          In x r.words ↔ (In x d.words × IsUpperAlpha x × ((c : ℕ) → count c x ≤ count c t)))
        (to_upper_of_IsUpperAlpha r.letters upper) (rw same (In-find_words d r.letters x))

  generated :
      (d : Dictionary) (n : ℕ) (g : w.rng.Source)
      → In (Rack.generate w.rng d n g) (candidates w.rng d n max_tries g)
        ⊎ (Rack.generate w.rng d n g ≡ record { letters = []; words = [] })
  generated d n g = elim (generate-Found w.rng d n g) [
    | inl f ↦ inl f.0
    | inr f ↦ elim f.2 [ inl none_better ↦ inr none_better | inr m ↦ inl m ]
  ]

  generate-IsSoloRack :
      (d : Dictionary) (n : ℕ) (g : w.rng.Source)
      → 4 ≤ n
      → n ≤ 8
      → let r = Rack.generate w.rng d n g in
        IsSoloRack d (record { letters = r.letters; word_count = length r.words; words = r.words })
  generate-IsSoloRack d n g lo hi = elim (generated d n g) [
    | inl m ↦
        let (long, upper, same) = rack_drawn d n max_tries g _ m in
        record {
          sized = inl (omega (arith, long), omega (arith, long), found-IsSpelled d _ upper same);
          upper = upper;
          counted = refl;
        }
    | inr e ↦ rw e (record { sized = inr (refl, refl); upper = tt; counted = refl })
  ]

  -- Every reply of the solo rack either shows 4 to 8 letters, A-Z, with exactly those words of the
  -- dictionary that hold no letter more often than the rack does, or has no letters and no words.
  pub solo_rack-IsSoloRack :
      (g : w.rng.Source) (s : Server w) (query : Text)
      → (r : SoloRack) × (handle_solo_rack w g s query ≡ ok_json r) × IsSoloRack s.dict r
  unfolding handle_solo_rack Rack.generate_solo
  solo_rack-IsSoloRack g s query =
      let (lo, hi) = clamp_size_bounds (int_query query s.cfg.solo_rack_size) in
      (_, refl, generate-IsSoloRack s.dict _ g lo hi)
