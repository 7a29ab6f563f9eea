-- ===== src/Search/Perform/Stationary.antt =====
-- The single-machine search returns: the last entry of a sequence always names a mode of the vector.
use flexman.Double.{Double}
use flexman.Core.Solution.{Solution}
use flexman.Core.Manager.{Manager}
use flexman.Search.Algorithms.{Algorithms}
