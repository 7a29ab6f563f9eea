-- ===== src/Search/Perform/Quitting.antt =====
-- The user quits an interactive search.
use flexman.Base.{ℕ, ◌≡◌, false, some, List}
use flexman.Double.{Double}
use flexman.Core.Solution.{Solution}
use flexman.Core.Manager.{Manager}
use flexman.Search.Algorithms.{Algorithms}
use flexman.Search.Extension.{Clock}
use flexman.Search.Perform.{quit, read_key, Session}

module _ {ℓ} {Real State Resources World : Type ℓ} ⦃clock : Clock Real World⦄ where
  -- The search asks, and the next of the three keys is 'q'.
  abbrev Quits : Session Real State Resources World → Type 0
  Quits s = (s.disable_interactive ≡ false) × ((ks : List ℕ) × (read_key s.keys ≡ some (quit, ks)))
