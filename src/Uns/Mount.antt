-- ===== src/Uns/Mount.antt =====
-- plugins/uns/uns.go: `MountInsert`, `MountStrip` and `UnderMount`, the rewrite of a topic on each
-- hop between a child node and its parent.
pub mod RoundTrip
use colca.Prelude.{
  Text, codes, split_n, join, has_prefix, cut_prefix, is_empty, List, [], ◌∷◌, ◌++◌, Bool, true,
  false, not, ◌&&◌, Option, some, none,
}
use colca.Uns.Topic.{slash}

insert_segments : Text → Text → List Text → Text
insert_segments topic mount (a ∷ b ∷ c ∷ d ∷ e ∷ r) =
    join slash (a ∷ b ∷ c ∷ d ∷ (mount ++ slash ∷ e) ∷ [])
insert_segments topic mount _ = topic

unfoldable pub mount_insert : Text → Text → Text
unfolding insert_segments
mount_insert topic mount = insert_segments topic mount (split_n slash 5 topic)

unfoldable pub under_mount : Text → Text → Bool
under_mount path mount = not (is_empty mount) && has_prefix path (mount ++ codes "/")

strip_rest : Text → Text → Text → Text → Text → Option Text → Text × Bool
strip_rest topic a b c d none = (topic, false)
strip_rest topic a b c d (some rest) = (join slash (a ∷ b ∷ c ∷ d ∷ rest ∷ []), true)

strip_segments : Text → Text → List Text → Text × Bool
unfolding strip_rest
strip_segments topic mount (a ∷ b ∷ c ∷ d ∷ e ∷ r) =
    strip_rest topic a b c d (cut_prefix e (mount ++ codes "/"))
strip_segments topic mount _ = (topic, false)

unfoldable pub mount_strip : Text → Text → Text × Bool
unfolding strip_segments
mount_strip topic mount = strip_segments topic mount (split_n slash 5 topic)
