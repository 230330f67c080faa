-- ===== src/Storage/Fs/Laws.antt =====
-- What a read sees after a write, for the operations of Storage/Fs.antt.
use lynne_social.Prelude.{
  ◌≡◌, refl, Bool, true, false, ◌||◌, Option, none, some, List, [], ◌∷◌, ◌++◌, Text, text_eq,
  text_eq_refl, text_eq→eq, text_eq_iff, text_eq_instance, lookup, insert, lookup-insert,
  if◌then◌else◌, arith,
}
use lynne_social.Storage.Fs.{
  Disk, mem_text, add_dirs, content, append, overwrite, exists, create_directories, or_empty,
}

pub content-append :
    (p q t : Text) (d : Disk)
    → content p (append q t d) ≡ (if text_eq q p then content q d ++ t else content p d)
unfolding content append
content-append p q t d =
    ground (arith, lookup-insert q p (or_empty (lookup q d.files) ++ t) d.files)

pub content-overwrite :
    (p q t : Text) (d : Disk)
    → content p (overwrite q t d) ≡ (if text_eq q p then t else content p d)
unfolding content overwrite
content-overwrite p q t d = ground (arith, lookup-insert q p t d.files)

pub content-create_directories :
    (p q : Text) (d : Disk) → content p (create_directories q d) ≡ content p d
unfolding content create_directories
content-create_directories p q d = refl

pub exists-overwrite : (p t : Text) (d : Disk) → exists p (overwrite p t d) ≡ true
unfolding exists overwrite
exists-overwrite p t d = ground (arith, lookup-insert p p t d.files, text_eq_refl p)

-- A path that does not exist has no content.
pub content_missing : (p : Text) (d : Disk) → exists p d ≡ false → content p d ≡ []
unfolding exists content
content_missing p d h = ground arith

pub mem_text-add_dirs :
    (p : Text) (ps l : List Text) → mem_text p (add_dirs ps l) ≡ (mem_text p ps || mem_text p l)
unfolding mem_text add_dirs
mem_text-add_dirs p [] l = refl
mem_text-add_dirs p (q ∷ ps) l =
    ground (arith, mem_text-add_dirs p ps (if mem_text q l then l else q ∷ l), text_eq→eq q p)

pub ruleset disk_laws =
    (content-append, content-overwrite, content-create_directories, text_eq_refl)
