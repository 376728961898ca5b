-- ===== src/Serde/Entries.antt =====
-- The entries of a table that amqp_serde/src/de.rs inserts one by one are those of the table.
use amqprs.Prelude.{◌≡◌, refl, sym, ◌∙◌, ap, none, arith}
use amqprs.Serde.Types.{
  ShortStr, FieldValue, FieldEntries, no_entries, entry, insert_entry, find_entry,
}
use amqprs.Serde.WellFormed.{NewNames}

-- The entries in the order of insertion.
unfoldable pub insert_all : FieldEntries → FieldEntries → FieldEntries
insert_all acc no_entries = acc
insert_all acc (entry k v es) = insert_all (insert_entry k v acc) es

unfoldable pub join : FieldEntries → FieldEntries → FieldEntries
join no_entries fs = fs
join (entry k v es) fs = entry k v (join es fs)

join_no_entries : (es : FieldEntries) → join es no_entries ≡ es
unfolding join
join_no_entries no_entries = refl
join_no_entries (entry k v es) = ap (entry k v) (join_no_entries es)

join_assoc : (es fs gs : FieldEntries) → join (join es fs) gs ≡ join es (join fs gs)
unfolding join
join_assoc no_entries fs gs = refl
join_assoc (entry k v es) fs gs = ap (entry k v) (join_assoc es fs gs)

pub insert_entry-new :
    (k : ShortStr) (v : FieldValue) (acc : FieldEntries)
    → find_entry k acc ≡ none
    → insert_entry k v acc ≡ join acc (entry k v no_entries)
unfolding insert_entry find_entry join
insert_entry-new k v no_entries h = refl
insert_entry-new k v (entry j w es) h = ground (arith, insert_entry-new k v es)

-- New names are appended.
insert_all-join : (acc es : FieldEntries) → NewNames acc es → insert_all acc es ≡ join acc es
unfolding insert_all join
insert_all-join acc no_entries n = sym (join_no_entries acc)
insert_all-join acc (entry k v es) n =
    insert_all-join (insert_entry k v acc) es n.1
    ∙ ap (λ (x : FieldEntries). join x es) (insert_entry-new k v acc n.0)
    ∙ join_assoc acc (entry k v no_entries) es

pub insert_all_new : (es : FieldEntries) → NewNames no_entries es → insert_all no_entries es ≡ es
unfolding join
insert_all_new es n = insert_all-join no_entries es n
