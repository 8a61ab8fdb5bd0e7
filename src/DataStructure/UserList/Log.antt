-- ===== src/DataStructure/UserList/Log.antt =====
-- What the parts of `list_module_init` after the first listing log, the newest line first.
use linux_kernel_samples.Base.{Option, none, some, List, [], ◌∷◌}
use linux_kernel_samples.DataStructure.UserList.Text.{Text}
use linux_kernel_samples.DataStructure.UserList.Memory.{UserInfo, num, text, error, Line, line}
use linux_kernel_samples.DataStructure.UserList.Users.{enoent}
use linux_kernel_samples.DataStructure.UserList.Spec.{find, delete}

abbrev pub look_line : Text → Option UserInfo → Line
look_line name none = line "'%s' is not in the list" (text name ∷ [])
look_line name (some u) =
    line "'%s' is in the list and is %u years old" (text name ∷ num u.age ∷ [])

abbrev pub log_lookups : List Text → List UserInfo → List Line → List Line
log_lookups [] us out = out
log_lookups (name ∷ names) us out = log_lookups names us (look_line name (find name us) ∷ out)

abbrev pub log_writes : List Line → List Line
log_writes out =
    line "replaced the cart of username#3 with milk and ham" []
    ∷ line "username#3 is now %u years old" (num 99 ∷ [])
    ∷ out

-- With the user that is found.
abbrev pub log_update : Option UserInfo → List Line → List Line
log_update none out = out
log_update (some v) out =
    log_writes (line "username#3 is %u years old, changing the age to 99" (num v.age ∷ []) ∷ out)

abbrev pub delete_line : Text → Option UserInfo → Line
delete_line name none = line "there is no '%s' to delete (%pe)" (text name ∷ error enoent ∷ [])
delete_line name (some u) = line "deleted '%s'" (text name ∷ [])

-- Each deletion finds what the ones before it have left.
abbrev pub log_deletions : List Text → List UserInfo → List Line → List Line
log_deletions [] us out = out
log_deletions (name ∷ names) us out =
    log_deletions names (delete name us) (delete_line name (find name us) ∷ out)
