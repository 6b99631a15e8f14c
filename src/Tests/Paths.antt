-- ===== src/Tests/Paths.antt =====
-- Paths, as Go's package `path` treats them.
use index_core.Base.{codes, ◌≡◌, refl, path_dir, path_clean, has_prefix}

path_dir_file : path_dir (codes "/a/b.txt") ≡ codes "/a"
unfolding path_dir
path_dir_file = refl

path_dir_top : path_dir (codes "/b.txt") ≡ codes "/"
unfolding path_dir
path_dir_top = refl

path_dir_bare : path_dir (codes "b.txt") ≡ codes "."
unfolding path_dir
path_dir_bare = refl

path_clean_dots : path_clean (codes "/../a/./b//../c/") ≡ codes "/a/c"
unfolding path_clean has_prefix
path_clean_dots = refl
