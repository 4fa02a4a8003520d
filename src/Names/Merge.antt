-- ===== src/Names/Merge.antt =====
-- Rows of `dmd_names` under the merge of `upsertDmdName` (src/db/database-persistent.ts).
use diamond_dev_tools.Prelude.{◌≡◌, refl, sym, ap, Option, none, some}
use diamond_dev_tools.Names.{NameRow, coalesce, merge}

coalesce_assoc :
    {A : Type 0} (a b c : Option A) → coalesce (coalesce a b) c ≡ coalesce a (coalesce b c)
coalesce_assoc none b c = refl
coalesce_assoc (some a) b c = refl

coalesce_self : {A : Type 0} (a : Option A) → coalesce a a ≡ a
coalesce_self none = refl
coalesce_self (some a) = refl

pub merge_assoc : (a b c : NameRow) → merge (merge a b) c ≡ merge a (merge b c)
unfolding merge
merge_assoc a b c i = record {
  label = sym (coalesce_assoc c.label b.label a.label) i;
  owner = sym (coalesce_assoc c.owner b.owner a.owner) i;
  creator = coalesce_assoc a.creator b.creator c.creator i;
  created_block = coalesce_assoc a.created_block b.created_block c.created_block i;
  created_timestamp = coalesce_assoc a.created_timestamp b.created_timestamp c.created_timestamp i;
  expiration = sym (coalesce_assoc c.expiration b.expiration a.expiration) i;
  active = sym (coalesce_assoc c.active b.active a.active) i;
  blocked = sym (coalesce_assoc c.blocked b.blocked a.blocked) i;
  last_action_type = c.last_action_type;
  last_action_block = c.last_action_block;
  last_action_timestamp = c.last_action_timestamp;
}

pub merge_self : (a : NameRow) → merge a a ≡ a
unfolding merge
merge_self a i = record {
  label = coalesce_self a.label i;
  owner = coalesce_self a.owner i;
  creator = coalesce_self a.creator i;
  created_block = coalesce_self a.created_block i;
  created_timestamp = coalesce_self a.created_timestamp i;
  expiration = coalesce_self a.expiration i;
  active = coalesce_self a.active i;
  blocked = coalesce_self a.blocked i;
  last_action_type = a.last_action_type;
  last_action_block = a.last_action_block;
  last_action_timestamp = a.last_action_timestamp;
}

-- What is known of a name, if anything, and then more.
abbrev pub combine : Option NameRow → Option NameRow → Option NameRow
combine none b = b
combine (some a) none = some a
combine (some a) (some b) = some (merge a b)

pub combine-none : (a : Option NameRow) → combine a none ≡ a
combine-none none = refl
combine-none (some a) = refl

pub combine_assoc : (a b c : Option NameRow) → combine (combine a b) c ≡ combine a (combine b c)
combine_assoc none b c = refl
combine_assoc (some a) none c = refl
combine_assoc (some a) (some b) none = refl
combine_assoc (some a) (some b) (some c) = ap some (merge_assoc a b c)

pub combine_self : (a : Option NameRow) → combine a a ≡ a
combine_self none = refl
combine_self (some a) = ap some (merge_self a)
