-- ===== src/Catalog/Cached.antt =====
-- What `load_group_catalog` returns and keeps.
use mathlib.Core.Path.{subst}
use sub2api_gate.Base.{
  strip, take, ℕ, ◌≡◌, ◌≤◌, refl, ap, false, Bool-cases, inl, inr, Option, none, some, List, [],
  ◌∷◌, ◌++◌, arith, leb, text_eq, Text, member, Distinct, Distinct-snoc, All, All-append, length,
  length-append, Result, ok, err,
}
use sub2api_gate.Payload.{Python, str, text_of}
use sub2api_gate.Group.{max_group_catalog, validate_group_name}
use sub2api_gate.Group.Names.{IsGroup, validate_name-IsGroup}
use sub2api_gate.Database.{Db, GroupRow}
use sub2api_gate.Catalog.{
  CatalogEntry, Cache, names_of, add_row, if_fresh, serve_catalog, collect_rows, catalog_rows,
  if_fresh, serve_catalog, load_group_catalog,
}

-- 32 entries at most, with valid names, each once.
pub record IsCatalog (entries : List CatalogEntry) : Type 0 where
  pub short : length entries ≤ max_group_catalog
  pub distinct : Distinct (names_of entries)
  pub valid : All (λ (entry : CatalogEntry). IsGroup entry.name) entries

names_of-append :
    (xs : List CatalogEntry) (e : CatalogEntry)
    → names_of (xs ++ e ∷ []) ≡ names_of xs ++ e.name ∷ []
names_of-append [] e = refl
names_of-append (x ∷ xs) e = ap (◌∷◌ x.name) (names_of-append xs e)

IsCatalog-snoc :
    (entries : List CatalogEntry) (e : CatalogEntry)
    → IsCatalog entries
    → leb max_group_catalog (length entries) ≡ false
    → member e.name (names_of entries) ≡ false
    → IsGroup e.name
    → IsCatalog (entries ++ e ∷ [])
IsCatalog-snoc entries e h room new g = record {
  short = ground (arith, length-append entries (e ∷ []), h.short);
  distinct =
      rw (names_of-append entries e) (Distinct-snoc (names_of entries) e.name h.distinct new);
  valid =
      All-append (λ (entry : CatalogEntry). IsGroup entry.name) entries (e ∷ []) h.valid (g, tt);
}

add_row-IsCatalog :
    (g : GroupRow) (r : Result Text) (entries : List CatalogEntry)
    → IsCatalog entries
    → leb max_group_catalog (length entries) ≡ false
    → ((name : Text) → r ≡ ok name → IsGroup name)
    → IsCatalog (add_row g r entries)
unfolding add_row
add_row-IsCatalog g (err e) entries h room valid = h
add_row-IsCatalog g (ok name) entries h room valid =
    elim (Bool-cases (member name (names_of entries))) [
      | inl old ↦ rw old h
      | inr new ↦ rw new (IsCatalog-snoc entries _ h room new (valid name refl))
    ]

if_fresh-some :
    (now expires_at : ℕ) (o : Option (List CatalogEntry)) (entries : List CatalogEntry)
    → if_fresh now expires_at o ≡ some entries
    → o ≡ some entries
unfolding if_fresh
if_fresh-some now expires_at none entries h = cc
if_fresh-some now expires_at (some kept) entries h = ground arith

module _ (py : Python) where
  collect_rows-IsCatalog :
      (order_by_name : List GroupRow → List GroupRow) (gs : List GroupRow)
      (entries : List CatalogEntry)
      → IsCatalog entries
      → IsCatalog (collect_rows py order_by_name gs entries)
  unfolding collect_rows validate_group_name
  collect_rows-IsCatalog order_by_name [] entries h = h
  collect_rows-IsCatalog order_by_name (g ∷ gs) entries h =
      elim (Bool-cases (leb max_group_catalog (length entries))) [
        | inl full ↦ rw full h
        | inr room ↦ rw room (
            collect_rows-IsCatalog order_by_name gs _ (
              add_row-IsCatalog g _ entries h room (λ name e.
                validate_name-IsGroup (strip (text_of py (str (take 64 g.name)))) name e)))
      ]

  -- A cache whose entries form a catalogue.
  abbrev pub IsCache : Cache → Type 0
  IsCache cache = (entries : List CatalogEntry) → cache.groups ≡ some entries → IsCatalog entries

  serve_catalog-IsCatalog :
      (order_by_name : List GroupRow → List GroupRow) (later : ℕ) (cache : Cache) (d : Db)
      (o : Option (List CatalogEntry))
      → IsCache cache
      → ((entries : List CatalogEntry) → o ≡ some entries → IsCatalog entries)
      → IsCatalog (serve_catalog py order_by_name later cache d o).0
        × IsCache (serve_catalog py order_by_name later cache d o).1
  unfolding serve_catalog
  serve_catalog-IsCatalog order_by_name later cache d (some entries) h k = (k entries refl, h)
  serve_catalog-IsCatalog order_by_name later cache d none h k = (renewed, kept)
    where
      new : List CatalogEntry
      new = collect_rows py order_by_name (catalog_rows py order_by_name d) []

      renewed : IsCatalog new
      renewed =
          collect_rows-IsCatalog order_by_name (catalog_rows py order_by_name d) []
            (record { short = omega arith; distinct = tt; valid = tt })

      kept : (entries : List CatalogEntry) → some new ≡ some entries → IsCatalog entries
      kept entries e = let same : new ≡ entries = cc in subst IsCatalog same renewed

  -- Whatever rows the database holds and in whatever order it gives them, the catalogue that is
  -- returned has 32 entries at most, with valid names and no name twice, as long as the cache held
  -- such a one; and the cache holds such a one again.
  pub load_group_catalog-IsCatalog :
      (order_by_name : List GroupRow → List GroupRow) (now later : ℕ) (cache : Cache) (d : Db)
      → IsCache cache
      → IsCatalog (load_group_catalog py order_by_name now later cache d).0
        × IsCache (load_group_catalog py order_by_name now later cache d).1
  unfolding load_group_catalog
  load_group_catalog-IsCatalog order_by_name now later cache d h =
      serve_catalog-IsCatalog order_by_name later cache d
        (if_fresh now cache.expires_at cache.groups) h
        (λ entries e. h entries (if_fresh-some now cache.expires_at cache.groups entries e))
