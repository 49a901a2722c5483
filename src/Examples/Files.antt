-- ===== src/Examples/Files.antt =====
-- A disk that is a dictionary from paths to contents.
use nacos_sdk_nodejs.Prelude.{
  ◌≡◌, refl, sym, ap, ◌∙◌, true, Option, none, some, Text, text_eq_iff, text_eq_refl, codes,
  Outcome, ok, err, List, [], ◌∷◌, ◌++◌, arith,
}
use nacos_sdk_nodejs.Prelude.Dict
use nacos_sdk_nodejs.Prelude.Dict.{Dict, get-set, get-delete}
use nacos_sdk_nodejs.Config.Snapshot.{FileSystem, Snapshot, save}
use nacos_sdk_nodejs.Config.Snapshot.Atomic.{Lawful, SameFile, Saved, save-Saved}

abbrev pub read_from : Option Text → Outcome (Unit {0}) Text
read_from none = err tt
read_from (some t) = ok t

unfoldable pub move_to :
    Dict Text → Text → Text → Option Text → Outcome (Unit {0}) (Unit {0}) × Dict Text
move_to d p q none = (err tt, d)
move_to d p q (some t) = (ok tt, Dict.set q t (Dict.delete p d))

unfoldable pub join_all : List Text → Text
join_all [] = []
join_all (p ∷ ps) = p ++ (codes "/" ++ join_all ps)

abbrev pub fs : FileSystem
fs = record {
  Disk = Dict Text;
  FsError = Unit {0};
  exists = λ d p. ok (Dict.has p d);
  read_file = λ d p. read_from (Dict.get p d);
  stat = λ d p. err tt;
  is_enoent = λ e. true;
  mkdirp = λ d p. (ok tt, d);
  write_file = λ d p v. (ok tt, Dict.set p v d);
  rename = λ d p q. move_to d p q (Dict.get p d);
  unlink = λ d p. (ok tt, Dict.delete p d);
  rimraf = λ d p. (ok tt, Dict.delete p d);
  join = join_all;
  dirname = λ p. p;
  show = λ n. codes "1";
  random = λ n. codes "abcdef";
}

same : (d d' : Dict Text) (p : Text) → Dict.get p d' ≡ Dict.get p d → SameFile fs d d' p
same d d' p e = record { exists = rw e refl; content = rw e refl }

moved :
    (d d' : Dict Text) (p q : Text) (o : Option Text)
    → o ≡ Dict.get p d
    → move_to d p q o ≡ (ok tt, d')
    → Dict.get q d' ≡ Dict.get p d
unfolding move_to
moved d d' p q none e h = absurd cc
moved d d' p q (some t) e h =
    ap (λ x. Dict.get q x.1) (sym h) ∙ get-set q q t (Dict.delete p d) ∙ rw (text_eq_refl q) e

not_moved :
    (d d' : Dict Text) (p q : Text) (o : Option Text)
    → move_to d p q o ≡ (err tt, d')
    → Dict.get q d' ≡ Dict.get q d
unfolding move_to
not_moved d d' p q none h = ap (λ x. Dict.get q x.1) (sym h)
not_moved d d' p q (some t) h = absurd cc

pub fs-Lawful : Lawful fs
fs-Lawful = record {
  write-read = λ d d' p v h.
      let e : Dict.get p d' ≡ some v =
        ap (λ x. Dict.get p x.1) (sym h) ∙ get-set p p v d ∙ rw (text_eq_refl p) refl in
      (rw e refl, rw e refl);
  write-SameFile = λ d p v q n. same d _ q (ground (arith, get-set p q v d, text_eq_iff p q));
  mkdirp-SameFile = λ d q. same d d q refl;
  unlink-SameFile = λ d p q n. same d _ q (ground (arith, get-delete p q d, text_eq_iff p q));
  rename-moves =
      λ d d' p q h. let e = moved d d' p q (Dict.get p d) refl h in (rw e refl, rw e refl);
  rename-fails = λ d d' p q e h. same d d' q (not_moved d d' p q (Dict.get p d) h);
  rimraf-removes = λ d d' p h.
      let e : Dict.get p d' ≡ none =
        ap (λ x. Dict.get p x.1) (sym h) ∙ get-delete p p d ∙ rw (text_eq_refl p) refl in
      rw e refl;
}

abbrev pub snapshots : Snapshot fs
snapshots = record { cache_dir = codes "/c"; pid = 7; write_seq = 0; disk = []; emitted = [] }

save-Saved_example :
    Saved fs snapshots (save fs snapshots (codes "k") (codes "v")) (codes "k") (codes "v")
save-Saved_example = save-Saved fs fs-Lawful snapshots (codes "k") (codes "v") refl
