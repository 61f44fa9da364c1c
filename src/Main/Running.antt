-- ===== src/Main/Running.antt =====
-- cmd/server/main.go and internal/api/api.go: a server from its start on, over the requests that it
-- is sent.
use wordbreak_backend.Base.{◌≡◌, subst, sym, ap, ◌∙◌, some, List, []}
use wordbreak_backend.Base.Text.{Text, UnicodeTables}
use wordbreak_backend.Base.Assoc.{lookup-empty}
use wordbreak_backend.Dictionary.{Dictionary, all_words}
use wordbreak_backend.Grid.{new_trie}
use wordbreak_backend.Store.{Daily}
use wordbreak_backend.Store.Keyed.{AllKeyed}
use wordbreak_backend.Chain.{Ethereum}
use wordbreak_backend.Signer.{Crypto}
use wordbreak_backend.Room.Kept.{AllValid}
use wordbreak_backend.Room.Services.{Reply, ok}
use wordbreak_backend.Api.{Platform, Server, Config, ok_json}
use wordbreak_backend.Api.Solo.{SoloGrid, SoloRack, handle_solo_grid, handle_solo_rack}
use wordbreak_backend.Api.Puzzles.{
  IsSoloGrid, IsSoloRack, solo_grid-IsSoloGrid, solo_rack-IsSoloRack,
}
use wordbreak_backend.Api.Serving.{Serves-words, Serves-AllKeyed}
use wordbreak_backend.Api.Http.{Json}
use wordbreak_backend.Api.Http.Dispatch.{serve_all}
use wordbreak_backend.Api.Http.Dispatch.{Event}
use wordbreak_backend.Api.Http.Serving.{serve_all-Serves}
use wordbreak_backend.Main.{boot}
use wordbreak_backend.Main.Staking.{boot-IsStarted}

module _ (w : Platform) ⦃u : UnicodeTables⦄ where
  -- What holds of a server at any time.
  pub record IsRunning (dict : Dictionary) (t : Server w) : Type 0 where
    pub rooms_valid : AllValid t.rooms
    pub rounds_keyed : AllKeyed t.store.dailies
    pub grids_solved :
        (g : w.rng.Source) (query : Text)
        → (r : SoloGrid) × (handle_solo_grid w g t query ≡ ok_json r) × IsSoloGrid dict r
    pub racks_solved :
        (g : w.rng.Source) (query : Text)
        → (r : SoloRack) × (handle_solo_rack w g t query ≡ ok_json r) × IsSoloRack dict r

  no_rounds-AllKeyed : AllKeyed []
  no_rounds-AllKeyed key d h = absurd (cc (lookup-empty Daily key, h))

module _ (getenv : Text → Text) (w : Platform) ⦃u : UnicodeTables⦄ (eth : Ethereum)
    (crypto : Crypto eth) (connect : Text → Reply w.persister.Db) (json : Json) where
  -- A server that starts with a dictionary, and has answered any HTTP requests and run any
  -- settlements, one after another, whatever the chain and the database answered to each, holds
  -- valid rooms only, and daily rounds under their dates with the results under their addresses;
  -- and whatever size is asked for, the boards and racks of its solo game come with exactly those
  -- words of that dictionary that paths of different and adjoining cells of the board trace, or the
  -- rack spells. Settlements are of any rooms at any times, those that `Start` schedules among
  -- them.
  pub boot_serves :
      (dict : Dictionary) (cfg : Config) (s t : Server w) (events : List (Event w))
      → boot getenv w eth crypto connect dict cfg ≡ ok s
      → serve_all w json s events ≡ some t
      → IsRunning w dict t
  boot_serves dict cfg s t events booted served =
      let start = boot-IsStarted getenv w eth crypto connect dict cfg s booted in
      let (k, valid, _) = serve_all-Serves w json events s t dict _ start.new_rooms served in
      let (same_dict, same_trie) = Serves-words w s t k in
      let (knows, solves) = start.knows_words in
      record {
        rooms_valid = valid;
        rounds_keyed =
            Serves-AllKeyed w s t k (subst AllKeyed (sym start.no_rounds) (no_rounds-AllKeyed w));
        grids_solved = λ g query.
            subst
              (λ (d : Dictionary).
                (r : SoloGrid) × (handle_solo_grid w g t query ≡ ok_json r) × IsSoloGrid d r)
              (same_dict ∙ knows)
              (solo_grid-IsSoloGrid w g t query (
                same_trie
                ∙ solves
                ∙ ap (λ (d : Dictionary). new_trie (all_words d)) (sym (same_dict ∙ knows))));
        racks_solved = λ g query.
            subst
              (λ (d : Dictionary).
                (r : SoloRack) × (handle_solo_rack w g t query ≡ ok_json r) × IsSoloRack d r)
              (same_dict ∙ knows) (solo_rack-IsSoloRack w g t query);
      }
