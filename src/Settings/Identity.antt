-- ===== src/Settings/Identity.antt =====
-- Which server a journal belongs to: `_member_identity`, the test in `_identity` and
-- `_recovery_journal` (src/pg_perf_bench/initialization_settings.py).
use pg_perf_bench.Prelude.{
  Bool, true, false, not, ◌&&◌, String, Option, none, some, List, [], ◌∷◌, str_eq, ◌==◌,
  if◌then◌else◌,
}
use pg_perf_bench.Effects.{Identity, Journal, Value}

unfoldable pub texts_eq : List String → List String → Bool
texts_eq [] [] = true
texts_eq (s ∷ ss) (t ∷ ts) = str_eq s t && texts_eq ss ts
texts_eq _ _ = false

unfoldable pub host_eq : Option (String × String) → Option (String × String) → Bool
host_eq none none = true
host_eq (some (a, b)) (some (c, d)) = str_eq a c && str_eq b d
host_eq _ _ = false

-- `==` on the dictionaries of `_identity`.
unfoldable pub identity_eq : Identity → Identity → Bool
unfolding host_eq
identity_eq i j =
    str_eq i.system_identifier j.system_identifier
    && str_eq i.address j.address
    && i.port == j.port
    && str_eq i.data_directory j.data_directory
    && host_eq i.host j.host

-- `_member_identity`: once the host is known, the address and the port do not count.
unfoldable pub member_identity : Identity → Identity
member_identity i = elim (i.host) [ none ↦ i | some _ ↦ record i { address = ""; port = 0 } ]

unfoldable pub same_member : Identity → Identity → Bool
unfolding identity_eq member_identity
same_member i j = identity_eq (member_identity i) (member_identity j)

-- The host must answer with its name, its directory and the same `postmaster.pid`.
unfoldable pub confirm_host : Identity → List String → Value → Option Identity
unfolding texts_eq
confirm_host i pid (Value.texts (name ∷ inode ∷ line ∷ lines)) =
    if texts_eq (line ∷ lines) pid then some (record i { host = some (name, inode) }) else none
confirm_host i pid _ = none

-- The identity as a journal could have written it: an old one has no host.
unfoldable pub as_known_to : Journal → Identity → Identity
as_known_to j mine = elim (j.identity.host) [ none ↦ record mine { host = none } | some _ ↦ mine ]

unfoldable pub add_found :
    String → Journal → Option (List (String × Journal)) → Option (List (String × Journal))
add_found path j none = none
add_found path j (some found) = some ((path, j) ∷ found)

-- `_recovery_journal`, on the files of the directory: those of this server, which must be of this
-- host. An old journal has no host, and is compared without.
unfoldable pub matching : Identity → List (String × Journal) → Option (List (String × Journal))
unfolding same_member as_known_to add_found
matching mine [] = some []
matching mine ((path, j) ∷ rest) =
    let others = matching mine rest in
    if not (str_eq j.identity.system_identifier mine.system_identifier)
    then others
    else if same_member j.identity (as_known_to j mine)
    then add_found path j others
    else none

pub data Found : Type 0 where
  nowhere refused : Found
  at_path : String → Journal → Found

unfoldable pub only : Option (List (String × Journal)) → Found
only none = refused
only (some []) = nowhere
only (some ((path, j) ∷ [])) = at_path path j
only (some _) = refused
