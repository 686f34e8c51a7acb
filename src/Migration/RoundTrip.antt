-- ===== src/Migration/RoundTrip.antt =====
-- Upgrading and downgrading a schema.
use mathlib.Core.Option
use eq_site_cms_vk_service.Text.{Text, text_eq}
use eq_site_cms_vk_service.Migration.Schema.{
  Table, Index, Schema, Statement, has_table, has_index, is_referenced, is_dangling, remove_table,
  remove_index, create_table, create_index, drop_index, drop_table, execute,
}
use eq_site_cms_vk_service.Migration.Models.{metadata}
use eq_site_cms_vk_service.Migration.Versions.{
  upgrade_vk_domain, upgrade_deliveries, downgrade_vk_domain, downgrade_deliveries,
}
use eq_site_cms_vk_service.Shared.{
  arith, Bool, true, false, not, some, List, [], ◌∷◌, ◌++◌, any, select, ◌≡◌, refl, ◌∙◌, All,
}

-- The tables of the models and their indexes, each put before those that were there.
unfoldable pub with_indexes : List Index → List Index → List Index
with_indexes [] indexes = indexes
with_indexes (i ∷ rest) indexes = with_indexes rest (i ∷ indexes)

unfoldable pub with_tables : List (Table × List Index) → Schema → Schema
unfolding with_indexes
with_tables [] s = s
with_tables ((t, own) ∷ rest) s =
    with_tables rest (record { tables = t ∷ s.tables; indexes = with_indexes own s.indexes })

-- Nothing of the schema has a name of the models, or is about a table with one.
abbrev pub IsFree : Schema → Type 0
IsFree s =
    All
      (λ m.
        (has_table m.0.name s ≡ false)
        × (is_referenced m.0.name s ≡ false)
        × (any (λ i. text_eq i.table m.0.name) s.indexes ≡ false)
        × All (λ i. has_index i.name s ≡ false) m.1)
      metadata

then_table :
    (t : Table) (rest : List Statement) (s : Schema)
    → has_table t.name s ≡ false
    → any (is_dangling s) t.constraints ≡ false
    → execute (create_table t ∷ rest) s ≡ execute rest (record s { tables = t ∷ s.tables })
unfolding execute Option.bind create_table
then_table t rest s h k = rw (h, k) refl

then_index :
    (i : Index) (rest : List Statement) (s : Schema)
    → has_index i.name s ≡ false
    → has_table i.table s ≡ true
    → execute (create_index i ∷ rest) s ≡ execute rest (record s { indexes = i ∷ s.indexes })
unfolding execute Option.bind create_index
then_index i rest s h k = rw (h, k) refl

then_no_index :
    (name : Text) (rest : List Statement) (s : Schema)
    → has_index name s ≡ true
    → execute (drop_index name ∷ rest) s
      ≡ execute rest (record s { indexes = remove_index name s.indexes })
unfolding execute Option.bind drop_index
then_no_index name rest s h = rw (h) refl

select-kept :
    (p : Index → Bool) (is : List Index) → any p is ≡ false → select (λ i. not (p i)) is ≡ is
unfolding any select
select-kept p [] e = refl
select-kept p (i ∷ is) e =
    let here : p i ≡ false = ground arith in
    let later : any p is ≡ false = ground arith in rw (here, select-kept p is later) refl

then_no_table :
    (name : Text) (rest : List Statement) (s : Schema)
    → has_table name s ≡ true
    → is_referenced name s ≡ false
    → any (λ i. text_eq i.table name) s.indexes ≡ false
    → execute (drop_table name ∷ rest) s
      ≡ execute rest (record s { tables = remove_table name s.tables })
unfolding execute Option.bind drop_table
then_no_table name rest s h k free =
    rw (h, k, select-kept (λ i. text_eq i.table name) s.indexes free) refl

finished : (s : Schema) → execute [] s ≡ some s
unfolding execute
finished s = refl

abbrev upgrade : List Statement
upgrade = upgrade_vk_domain ++ upgrade_deliveries

abbrev downgrade : List Statement
downgrade = downgrade_deliveries ++ downgrade_vk_domain

upgrade_lem : (s : Schema) → IsFree s → execute upgrade s ≡ some (with_tables metadata s)
unfolding text_eq any with_tables with_indexes
upgrade_lem s
      (
        (t1, _, _, (i1, (i2, (i3, _)))),
        ((t2, _, _, (i4, (i5, _))), ((t3, _, _, (i6, (i7, (i8, _)))), ((t4, _, _, (i9, _)), _))),
      ) =
    then_table _ _ _ t1 refl
    ∙ (then_index _ _ _ i1 refl
        ∙ (then_index _ _ _ i2 refl
            ∙ (then_index _ _ _ i3 refl
                ∙ (then_table _ _ _ t2 refl
                    ∙ (then_index _ _ _ i4 refl
                        ∙ (then_index _ _ _ i5 refl
                            ∙ (then_table _ _ _ t3 refl
                                ∙ (then_index _ _ _ i6 refl
                                    ∙ (then_index _ _ _ i7 refl
                                        ∙ (then_index _ _ _ i8 refl
                                            ∙ (then_table _ _ _ t4 refl
                                                ∙ (then_index _ _ _ i9 refl ∙ finished _))))))))))))

downgrade_lem : (s : Schema) → IsFree s → execute downgrade (with_tables metadata s) ≡ some s
unfolding text_eq any with_tables with_indexes remove_index remove_table
downgrade_lem s ((_, r1, o1, _), ((_, r2, o2, _), ((_, r3, o3, _), ((_, r4, o4, _), _)))) =
    then_no_index _ _ _ refl
    ∙ (then_no_table _ _ _ refl r4 o4
        ∙ (then_no_index _ _ _ refl
            ∙ (then_no_index _ _ _ refl
                ∙ (then_no_index _ _ _ refl
                    ∙ (then_no_table _ _ _ refl r3 o3
                        ∙ (then_no_index _ _ _ refl
                            ∙ (then_no_index _ _ _ refl
                                ∙ (then_no_table _ _ _ refl r2 o2
                                    ∙ (then_no_index _ _ _ refl
                                        ∙ (then_no_index _ _ _ refl
                                            ∙ (then_no_index _ _ _ refl
                                                ∙ (then_no_table _ _ _ refl r1 o1
                                                    ∙ finished _))))))))))))

-- On a schema that has nothing of the names of the models, the migrations make exactly the tables and the
-- indexes that the models declare, and undoing them gives the schema back.
pub migrations_outcome :
    (s : Schema)
    → IsFree s
    → (execute (upgrade_vk_domain ++ upgrade_deliveries) s ≡ some (with_tables metadata s))
      × (execute (downgrade_deliveries ++ downgrade_vk_domain) (with_tables metadata s) ≡ some s)
migrations_outcome s free = (upgrade_lem s free, downgrade_lem s free)
