-- ===== src/FileLink/Tests.antt =====
-- File names with what follows them in the output of compilers, and paths as URIs.
use foot.Base.{◌≡◌, refl, arith, [], ◌∷◌, some, none}
use foot.FileLink.{
  file_link_clean, file_link_resolve, file_link_path_from_uri, file_link_path_to_uri,
}
use foot.FileLink.PathUri.{file_link_path_from_uri-to_uri}

-- `a.c:12:5,` and `..`
clean_position :
    file_link_clean (b'a' ∷ b'.' ∷ b'c' ∷ b':' ∷ b'1' ∷ b'2' ∷ b':' ∷ b'5' ∷ b',' ∷ [])
    ≡ b'a' ∷ b'.' ∷ b'c' ∷ []
unfolding file_link_clean
clean_position = refl

clean_dots : file_link_clean (b'.' ∷ b'.' ∷ []) ≡ b'.' ∷ []
unfolding file_link_clean
clean_dots = refl

-- `~/a` and `a`
resolve_home :
    file_link_resolve (some (b'~' ∷ b'/' ∷ b'a' ∷ [])) none (some (b'/' ∷ b'h' ∷ []))
    ≡ some (b'/' ∷ b'h' ∷ b'/' ∷ b'a' ∷ [])
unfolding file_link_resolve
resolve_home = refl

resolve_relative :
    file_link_resolve (some (b'a' ∷ [])) (some (b'/' ∷ b'd' ∷ [])) none
    ≡ some (b'/' ∷ b'd' ∷ b'/' ∷ b'a' ∷ [])
unfolding file_link_resolve
resolve_relative = refl

escaped :
    file_link_path_to_uri (b'/' ∷ b' ' ∷ [])
    ≡ b'f' ∷ b'i' ∷ b'l' ∷ b'e' ∷ b':' ∷ b'/' ∷ b'/' ∷ b'/' ∷ b'%' ∷ b'2' ∷ b'0' ∷ []
unfolding file_link_path_to_uri
escaped = refl

-- `/a b?`
file_link_path_from_uri-to_uri_example :
    file_link_path_from_uri [] (file_link_path_to_uri (b'/' ∷ b'a' ∷ b' ' ∷ b'b' ∷ b'?' ∷ []))
    ≡ some (b'/' ∷ b'a' ∷ b' ' ∷ b'b' ∷ b'?' ∷ [])
file_link_path_from_uri-to_uri_example =
    file_link_path_from_uri-to_uri [] (b'a' ∷ b' ' ∷ b'b' ∷ b'?' ∷ []) (omega arith)
