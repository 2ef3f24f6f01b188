-- ===== src/Filesys/Examples.antt =====
-- filesys/filesys.c on concrete paths and a concrete disk.
use pintos_filesys.Base.{◌≡◌, refl, arith, true, [], ◌∷◌, ok, Returns}
use pintos_filesys.Disk.{Disk}
use pintos_filesys.Directory.{Name}
use pintos_filesys.Filesys.{tokens, parse_path, filesys_init}
use pintos_filesys.Filesys.Paths.{AreParts, join, parse_path-join}
use pintos_filesys.Filesys.Format.{Overwritten, filesys_init-Overwritten}

abbrev usr : Name
usr = b'u' ∷ b's' ∷ b'r' ∷ []

abbrev bin : Name
bin = b'b' ∷ b'i' ∷ b'n' ∷ []

-- "//usr//bin/" has two names.
parse_slashes :
    parse_path (b'/' ∷ b'/' ∷ b'u' ∷ b's' ∷ b'r' ∷ b'/' ∷ b'/' ∷ b'b' ∷ b'i' ∷ b'n' ∷ b'/' ∷ [])
    ≡ ok (usr ∷ bin ∷ [])
unfolding parse_path tokens
parse_slashes = refl

parts : AreParts (usr ∷ bin ∷ [])
parts = ((omega arith, refl), ((omega arith, refl), tt))

parse_path-join_example : parse_path (join (usr ∷ bin ∷ [])) ≡ ok (usr ∷ bin ∷ [])
parse_path-join_example = parse_path-join (usr ∷ bin ∷ []) parts (omega arith)

abbrev disk : Disk
disk = record { capacity = 1000; sectors = λ s o. o }

filesys_init-Overwritten_example : Returns (λ (fs, d'). Overwritten fs) (filesys_init true disk)
filesys_init-Overwritten_example =
    filesys_init-Overwritten 1000 (omega arith, omega arith) (omega arith) disk refl
