-- ===== src/NonceStorage/Local/Listed.antt =====
-- A cache that is written out, for the runs.
use jwtproxy.Common.{Bool, false, refl, List, [], ◌∷◌, Bytes, bytes_eq, if◌then◌else◌}
use jwtproxy.Time.{Time, Duration}
use jwtproxy.NonceStorage.Local.{CacheLib, lives}

-- An entry is a key, a duration and the instant at which it was set. Get looks at the newest entry of
-- a key; the janitor may leave everything in its place, since Get does not find what has expired.
abbrev get_entry : Bytes → Time → List (Bytes × Duration × Time) → Bool
get_entry k u [] = false
get_entry k u ((j, d, t) ∷ es) = if bytes_eq j k then lives d t u else get_entry k u es

abbrev pub listed : CacheLib
listed = record {
  Cache = List (Bytes × Duration × Time);
  get = get_entry;
  set = λ k d t es. (k, d, t) ∷ es;
  delete_expired = λ t es. es;
  get-set = λ k j d t u es. refl;
  get-delete_expired = λ k t u es h. refl;
}
