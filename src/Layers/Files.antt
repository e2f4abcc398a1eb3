-- ===== src/Layers/Files.antt =====
-- The file map of `resolve` in context/hierarchy.rs, against the priorities of the layers.
use memix.Base.{ℕ, List, String, ◌≡◌, none, text_key, All}
use memix.Dict.{lookup}
use memix.Layers.{new, resolve}
use memix.Layers.Order.{Call, run}
use memix.Layers.Content.{chosen, file_in, HasFilesOnce, lookup-resolve}
use memix.Layers.Priority.{Descending, chosen-Descending}

-- After any calls on a new resolver the layers that apply to a path are taken by descending priority,
-- and the resolved file map has, for a file, what the last of them that has it gives, where a layer
-- that overrides forgets what those before it gave. So a lower priority decides over a higher one. No
-- layer that applies has a file twice in its map.
pub resolve-file_in :
    (cs : List Call) (ms : ℕ) (path f : String)
    → All HasFilesOnce (chosen path (run new cs))
    → (lookup f (resolve ms path (run new cs)).file_map ≡ file_in f (chosen path (run new cs)) none)
      × Descending (chosen path (run new cs))
resolve-file_in cs ms path f n =
    (lookup-resolve ms path (run new cs) f n, chosen-Descending cs path)
