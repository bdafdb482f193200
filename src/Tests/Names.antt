-- ===== src/Tests/Names.antt =====
-- Names of files and hosts.
use broncho_mms.Base.{refl, ◌∷◌, ◌≡◌, ◌++◌}
use broncho_mms.Paths.ContentTypes.{get_file_content_type, find_type, g_ext_type}
use broncho_mms.Paths.Search.{strchr, strrchr}
use broncho_mms.Paths.Hosts.{
  get_host_from_url, skip_scheme, find_authority, starts_authority, skip_user, host_length,
  authority, get_host_from_url_lem,
}
use broncho_mms.Names.Pairs.{codes, same_text}
use broncho_mms.Paths.Files.{get_file_ext_name}

get_host_from_url_lem_example :
    get_host_from_url
      (codes "http" ++ authority (codes "me" ++ (b'@' ∷ (codes "host" ++ (b'/' ∷ codes "a:b")))))
    ≡ codes "host"
unfolding strchr
get_host_from_url_lem_example =
    get_host_from_url_lem (codes "http") (codes "me") (codes "host") (codes "a:b") refl refl refl
      refl

-- An at-sign in the path is taken for the end of a user's name.
host_behind_path : get_host_from_url (codes "http://host/mail@other/x") ≡ codes "other"
unfolding get_host_from_url skip_scheme find_authority starts_authority skip_user strchr host_length
host_behind_path = refl

host_of_database :
    get_host_from_url (codes "smtp://lixianjing@broncho.cn;database=broncho.db")
    ≡ codes "broncho.cn"
unfolding get_host_from_url skip_scheme find_authority starts_authority skip_user strchr host_length
host_of_database = refl

type_of_picture : get_file_content_type (codes "/tmp/a.jpg") ≡ codes "image/jpeg"
unfolding get_file_content_type get_file_ext_name strrchr find_type g_ext_type same_text
type_of_picture = refl
