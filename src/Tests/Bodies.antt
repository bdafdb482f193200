-- ===== src/Tests/Bodies.antt =====
-- A part without a content type, and the count of a body of 40 parts.
use broncho_mms.Base.{[], ◌∷◌, none, some, false, ◌≡◌, arith, refl, ◌++◌}
use broncho_mms.Body.Count.{put_part_count, get_part_count, get_part_count-put_part_count}
use broncho_mms.Output.State.{
  OutputBuffer, output_buffer_put_char, output_buffer_extend, store_char, store, realloc_buffer,
  result_ok,
}
use broncho_mms.Input.State.{InputBuffer}
use broncho_mms.BodyPart.State.{MmsBodyPart, header_text}
use broncho_mms.Output.Valid.{contents, most_room}
use broncho_mms.Output.Encode.{
  output_buffer_put_value_length, output_buffer_put_var_int, septets, skip_empty, put_septets,
  read_array, output_buffer_put_int8,
}
use broncho_mms.Tests.Given.{
  nearly_full, message, supply, supply-IsAllocator, supply-Serves, nearly_full-IsValid,
}
use broncho_mms.Names.Pairs.{codes, same_text}
use broncho_mms.RoundTrip.{Receives}
use broncho_mms.Body.State.{body_find_body_part, body_erase_body_part}
use broncho_mms.Body.Untyped.{IsUntyped, find_erase_untyped}
use broncho_mms.Header.State.{
  header_get_string, find_typed, find_item, header_compare_by_name, same_name, lowered, lower,
}
use broncho_mms.Linked.Spec.{find_first}
use broncho_mms.Items.{item_of, type_string, string}
use broncho_mms.Memory.{write_bytes, c_string}

-- A part with a Content-ID and no content type.
abbrev unlabelled : MmsBodyPart
unlabelled = record {
  header = some (record {
    items = some (
        some (item_of (codes "Content-ID") type_string (string (some (codes "<a>" ++ (0 ∷ [])))))
        ∷ []);
    unpack_end_at_content_type = false;
  });
  content = none;
  length = 0;
  header_offset = 0;
  data_offset = 0;
}

unlabelled-IsUntyped : IsUntyped unlabelled
unfolding header_text header_get_string find_typed find_item find_first header_compare_by_name
    same_name lowered lower same_text c_string
unlabelled-IsUntyped = record {
  header = record {
    items = some (
        some (item_of (codes "Content-ID") type_string (string (some (codes "<a>" ++ (0 ∷ [])))))
        ∷ []);
    unpack_end_at_content_type = false;
  };
  list =
      some (item_of (codes "Content-ID") type_string (string (some (codes "<a>" ++ (0 ∷ [])))))
      ∷ [];
  headed = refl;
  held = refl;
  untyped = (refl, tt);
  cid = some (codes "<a>");
  location = none;
  cid_read = refl;
  location_read = refl;
}

find_erase_untyped_example :
    (body_find_body_part
        (codes "smile.gif")
        (record { smil = some tt; body_parts = some (some unlabelled ∷ []) })
      ≡ some (some unlabelled))
    × (body_erase_body_part
          (codes "smile.gif")
          (record { smil = some tt; body_parts = some (some unlabelled ∷ []) })
        ≡ some (result_ok, record { smil = some tt; body_parts = some [] }))
find_erase_untyped_example =
    find_erase_untyped {S = Unit {0}} (some tt) unlabelled [] (codes "smile.gif")
      unlabelled-IsUntyped

abbrev count_written : OutputBuffer
count_written = record nearly_full {
  buffer = some (65 ∷ 66 ∷ 31 ∷ 40 ∷ 0 ∷ 0 ∷ 0 ∷ 0 ∷ 0 ∷ []);
  data_length = 4;
  length = 9;
}

abbrev count_received : InputBuffer
count_received = message (65 ∷ 66 ∷ 31 ∷ 40 ∷ []) 2

count_Receives : Receives count_received nearly_full count_written
unfolding contents
count_Receives = record {
  tail = [];
  block = refl;
  start = refl;
  reach = omega arith;
  small = omega arith;
}

count_run : put_part_count supply 40 nearly_full ≡ some (result_ok, count_written)
unfolding put_part_count output_buffer_put_value_length output_buffer_put_var_int septets skip_empty
    put_septets read_array output_buffer_put_int8 output_buffer_put_char output_buffer_extend
    store_char store realloc_buffer write_bytes
count_run = refl

get_part_count-put_part_count_example :
    get_part_count count_received ≡ some (31, record count_received { offset = 3 })
get_part_count-put_part_count_example =
    get_part_count-put_part_count supply supply-IsAllocator (supply-Serves most_room)
      nearly_full-IsValid 40 (omega arith) (omega arith) count_run count_Receives
