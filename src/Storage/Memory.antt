-- ===== src/Storage/Memory.antt =====
-- A log that holds texts in memory and never fails: the description in `StorageLog` can be met.
use xtap_pool.Base.{
  ==_refl, List, Option, Result, Text, [], ap, if◌then◌else◌, nat_eq, none, ok, some, text_eq, ◌==◌,
  ◌∷◌,
}
use xtap_pool.Storage.{StorageLog}

abbrev pub read_memory : List (Text × Text) → Text → Option Text
read_memory [] path = none
read_memory ((p, content) ∷ l) path = if p == path then some content else read_memory l path

abbrev pub memory : StorageLog
memory = record {
  Log = List (Text × Text);
  read_text = λ l path. ok (read_memory l path);
  write_text = λ l path content. ((path, content) ∷ l, ok tt);
  read_after_write = λ l l' path content h.
      rw (← ap (λ (r : List (Text × Text) × Result Text (Unit {0})). r.0) h, ==_refl path);
}
