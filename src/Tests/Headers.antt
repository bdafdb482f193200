-- ===== src/Tests/Headers.antt =====
-- A header with a subject and a content type, and what is read of and written to it.
use broncho_mms.Base.{[], ◌∷◌, none, some, true, ◌≡◌, refl, arith, ◌&&◌, not, ◌++◌, Option, take}
use broncho_mms.Header.Names.{Unique}
use broncho_mms.ContentType.State.{
  content_type_is_multi_part, no_content_type, has_prefix, content_type_set_content_type_by_name,
}
use broncho_mms.Memory.Laws.{NoNul}
use broncho_mms.Header.State.{
  same_name, Items, MmsHeader, lowered, lower, header_get_item_type, header_get_time,
  header_get_long, header_get_string, header_get_encoded_string,
}
use broncho_mms.Header.GetSet.{
  Stored, IsHeader, get_item_type-erase, get_long-set_long, get_time-set_time,
  get_encoded_string-set_encoded_string, get_string-set_string,
}
use broncho_mms.Items.{
  HeaderItem, item_of, type_data, type_string, type_none, string, data_and_destroy,
  content_type_destroy,
}
use broncho_mms.ContentType.Unpack.{unpack_params, unpack_param}
use broncho_mms.Input.State.{input_buffer_is_eof}
use broncho_mms.Header.Setters.{
  header_set_time, header_set_string, header_set_encoded_string, header_set_long, header_erase,
}
use broncho_mms.Tests.Given.{message, nearly_full, supply, supply-Serves, supply-IsAllocator}
use broncho_mms.Names.Pairs.{same_text, codes}
use broncho_mms.Names.Lookup.{has_name}
use broncho_mms.Output.Valid.{most_room}
use broncho_mms.ContentType.Facts.{unpack_params_stuck, is_multi_part-set_content_type_by_name}
use broncho_mms.ContentType.Table.{g_content_types}
use broncho_mms.Memory.{Block, c_string}
use broncho_mms.Header.Packing.{Ordered, Sends, header_pack-Ordered}
use broncho_mms.Output.State.{Out, MmsResult, result_fail, output_buffer_put_data}

abbrev subject : HeaderItem
subject = item_of (codes "Subject") type_string (string (some (codes "mms" ++ (0 ∷ []))))

abbrev media : HeaderItem
media = item_of (codes "Content-Type") type_data (data_and_destroy none content_type_destroy)

abbrev both : Items
both = some media ∷ some subject ∷ []

both-Unique : Unique both
unfolding same_name lowered lower same_text
both-Unique = ((refl, tt), (tt, tt))

abbrev given : MmsHeader
given = record { items = some both; unpack_end_at_content_type = true }

given-IsHeader : IsHeader given
given-IsHeader = record { list = both; held = refl; unique = both-Unique }

mms-NoNul : NoNul (codes "mms")
mms-NoNul = (omega arith, (omega arith, (omega arith, tt)))

get_long-set_long_example :
    (s : Stored (header_set_long supply (some (codes "SUBJECT")) 5 given) (codes "SUBJECT") given)
    × (header_get_long (codes "SUBJECT") s.after ≡ some 5)
get_long-set_long_example =
    get_long-set_long supply (supply-Serves most_room) given given-IsHeader (codes "SUBJECT") 5

get_time-set_time_example :
    (s : Stored
      (header_set_time supply (some (codes "X-Mms-Expiry")) true 3600 given)
      (codes "X-Mms-Expiry")
      given)
    × (header_get_time (codes "X-Mms-Expiry") s.after ≡ some (3600, some true))
get_time-set_time_example =
    get_time-set_time supply (supply-Serves most_room) given given-IsHeader (codes "X-Mms-Expiry")
      true 3600

get_string-set_string_example :
    (s : Stored
      (header_set_string supply (some (codes "Subject")) (some (codes "mms")) given)
      (codes "Subject")
      given)
    × ((p : Block) × (header_get_string (codes "Subject") s.after ≡ some (some p))
        × (c_string p ≡ some (codes "mms")))
get_string-set_string_example =
    get_string-set_string supply (supply-Serves most_room) given given-IsHeader (codes "Subject")
      supply-IsAllocator 109 (codes "ms") mms-NoNul (omega arith)

get_encoded_string-set_encoded_string_example :
    (s : Stored
      (header_set_encoded_string supply (some (codes "Subject")) (some (codes "mms")) 106 given)
      (codes "Subject")
      given)
    × ((p : Block) × (header_get_encoded_string (codes "Subject") s.after
          ≡ some (some (106, some p)))
        × (c_string p ≡ some (codes "mms")))
get_encoded_string-set_encoded_string_example =
    get_encoded_string-set_encoded_string supply (supply-Serves most_room) given given-IsHeader
      (codes "Subject") supply-IsAllocator 109 (codes "ms") 106 mms-NoNul (omega arith)
      (omega arith) (omega arith)

get_item_type-erase_example :
    (s : Stored (header_erase (some (codes "Subject")) given) (codes "Subject") given)
    × (header_get_item_type (codes "Subject") s.after ≡ some type_none)
get_item_type-erase_example = get_item_type-erase given given-IsHeader (codes "Subject")

-- The writer of the items is any; this one writes the first byte of the name.
abbrev first_letter : Option HeaderItem → Out MmsResult
first_letter none = λ o. some (result_fail, o)
first_letter (some it) = output_buffer_put_data supply (some (take 1 it.name))

header_pack-Ordered_example :
    (sent : Items) × Ordered true both sent × Sends supply first_letter nearly_full given sent
header_pack-Ordered_example =
    header_pack-Ordered supply first_letter nearly_full both true refl both-Unique

-- A multipart of the table.
is_multi_part-set_content_type_by_name_example :
    content_type_is_multi_part
      (content_type_set_content_type_by_name (some (codes "multipart/mixed")) no_content_type).1
    ≡ not (has_name (codes "multipart/mixed") g_content_types)
      && has_prefix (codes "multipart/") (codes "multipart/mixed")
is_multi_part-set_content_type_by_name_example =
    is_multi_part-set_content_type_by_name (codes "multipart/mixed") no_content_type

ended : input_buffer_is_eof (message (1 ∷ 2 ∷ []) 2) ≡ true
unfolding input_buffer_is_eof
ended = refl

unpack_params_stuck_example :
    (unpack_param no_content_type (message (1 ∷ 2 ∷ []) 2)
      ≡ some (no_content_type, message (1 ∷ 2 ∷ []) 2))
    × (unpack_params 101 5 no_content_type (message (1 ∷ 2 ∷ []) 2)
        ≡ unpack_params 100 5 no_content_type (message (1 ∷ 2 ∷ []) 2))
    × (unpack_params 100 5 no_content_type (message (1 ∷ 2 ∷ []) 2) ≡ none)
unpack_params_stuck_example =
    unpack_params_stuck 100 5 no_content_type (message (1 ∷ 2 ∷ []) 2) ended (omega arith)
