-- ===== src/Api/Solo.antt =====
-- internal/api/api.go: the handlers of the solo game, and those that only report.
use wordbreak_backend.Base.{ℕ, Option, none, some, List, length, if◌then◌else◌}
use wordbreak_backend.Base.Text.{Text, UnicodeTables, text}
use wordbreak_backend.Dictionary.{size}
use wordbreak_backend.Game
use wordbreak_backend.Game.{is_empty}
use wordbreak_backend.Rack
use wordbreak_backend.Grid.Board
use wordbreak_backend.Api.{
  Platform, Server, Response, ok_json, error_json, int_query, clamp_size, clamp_grid_size,
}

pub record SoloScoreRequest : Type 0 where
  pub letters : Text
  pub words : List Text

pub record SoloRack : Type 0 where
  pub letters : Text
  pub word_count : ℕ
  pub words : List Text

pub record SoloGrid : Type 0 where
  pub letters : Text
  pub width : ℕ
  pub height : ℕ
  pub word_count : ℕ
  pub words : List Text

module _ (w : Platform) where
  -- The number of words of a healthy server.
  unfoldable pub handle_health : Server w → Response ℕ
  handle_health s = ok_json (size s.dict)

  unfoldable pub handle_referee : Server w → Response Text
  handle_referee s = elim s.signer [
    | none ↦ error_json 503 (text "referee signing not configured")
    | some sg ↦ ok_json (w.eth.hex sg.address)
  ]

  module _ ⦃u : UnicodeTables⦄ where
    -- `query` is the value of `size`, empty if it is missing; `g` is a freshly seeded source.
    unfoldable pub handle_solo_rack : w.rng.Source → Server w → Text → Response SoloRack
    handle_solo_rack g s query =
        let n = clamp_size (int_query query s.cfg.solo_rack_size) in
        let res = Rack.generate_solo w.rng s.dict n g in
        ok_json (record { letters = res.letters; word_count = length res.words; words = res.words })

    unfoldable pub handle_solo_grid : w.rng.Source → Server w → Text → Response SoloGrid
    handle_solo_grid g s query =
        let n = clamp_grid_size (int_query query s.cfg.solo_grid_size) in
        let res = Board.generate_solo w.rng s.grid_trie n n g in
        ok_json (record {
          letters = res.letters;
          width = res.width;
          height = res.height;
          word_count = length res.words;
          words = res.words;
        })

    unfoldable pub handle_solo_score : Server w → Option SoloScoreRequest → Response Game.Result
    handle_solo_score s none = error_json 400 (text "invalid JSON body")
    handle_solo_score s (some req) =
        if is_empty req.letters
        then error_json 400 (text "letters required")
        else ok_json (Game.score s.dict req.letters req.words)
