-- ===== src/Program/Returning.antt =====
-- The run of a search returns: what the search and the sort rely on is carried from one to the other.
use flexman.Double.{Double}
use flexman.Core.Solution.{Solution}
use flexman.Core.Manager.{Manager}
use flexman.Search.Algorithms.{Algorithms}
use flexman.Tapping.{tapping_resources, tapping_meters}
