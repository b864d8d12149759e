-- ===== src/Util/Errors.antt =====
-- include/pmemcpy/util/errors.h: the table of errors.
use pmemcpy.Base.{List, [], ◌∷◌}
use pmemcpy.Util.Error.{Error, error}

abbrev pub file_not_found : Error
file_not_found = error 0 "File not found at {}"

abbrev pub invalid_storage_type : Error
invalid_storage_type = error 1 "{} is not a valid storage method"

abbrev pub invalid_serializer_type : Error
invalid_serializer_type = error 2 "{} is not a valid serializer type"

abbrev pub invalid_transport_type : Error
invalid_transport_type = error 3 "{} is not a valid transport type"

abbrev pub posix_path_not_directory : Error
posix_path_not_directory = error 100 "{} must be a directory for POSIX storage type to work"

abbrev pub posix_read_failed : Error
posix_read_failed =
    error 101 "Did not complete read of {} bytes to {}/{}. Return value: {}. Error Message: {}."

abbrev pub posix_write_failed : Error
posix_write_failed =
    error 102 "Did not complete write of {} bytes to {}/{}. Return value: {}. Error Message: {}."

abbrev pub posix_truncate_failed : Error
posix_truncate_failed = error 103 "Could not truncate {}/{} to size {}. Error Message: {}."

abbrev pub posix_open_failed : Error
posix_open_failed = error 104 "Could not open {}/{}. Error Message: {}."

abbrev pub posix_mmap_failed : Error
posix_mmap_failed = error 105 "Could not mmap {} from fd {}. Error Message: {}."

abbrev pub posix_find_failed : Error
posix_find_failed = error 106 "Could not find {}/{}. Error Message: {}."

abbrev pub pmdk_hash_pool_too_small : Error
pmdk_hash_pool_too_small =
    error 200 "{} bytes is too small. {} buckets requires at least {} bytes of space."

abbrev pub pmdk_hash_pool_failed : Error
pmdk_hash_pool_failed =
    error 201 "Could not allocate pool at {} of size {} with {} buckets. Error Message: {}."

abbrev pub pmdk_create_header_failed : Error
pmdk_create_header_failed =
    error 202 "Failed to allocate header for {} of size {} with {} buckets. Error Message: {}."

abbrev pub pmdk_cant_open_pool : Error
pmdk_cant_open_pool = error 204 "Failed to open pool at {}. Error Message: {}."

abbrev pub pmdk_cant_find_key : Error
pmdk_cant_find_key = error 205 "Could not find key {} in the pool."

abbrev pub pmdk_cant_allocate_str : Error
pmdk_cant_allocate_str = error 206 "Could not allocate {} of data. Error Message: {}."

abbrev pub pmdk_cant_allocate_obj : Error
pmdk_cant_allocate_obj =
    error 207 "Could not add {} of size {} bytes to hashtable. Error Message: {}."

abbrev pub pmdk_load_failed : Error
pmdk_load_failed = error 208 "Could not load data from PMEM. Error Message: {}."

abbrev pub pmdk_free_failed : Error
pmdk_free_failed = error 209 "Could remove {} from PMEM. Error Message: {}."

-- All of them, in the order of the file.
abbrev pub all_errors : List Error
all_errors =
    file_not_found ∷ invalid_storage_type ∷ invalid_serializer_type ∷ invalid_transport_type
    ∷ posix_path_not_directory ∷ posix_read_failed ∷ posix_write_failed ∷ posix_truncate_failed
    ∷ posix_open_failed ∷ posix_mmap_failed ∷ posix_find_failed ∷ pmdk_hash_pool_too_small
    ∷ pmdk_hash_pool_failed ∷ pmdk_create_header_failed ∷ pmdk_cant_open_pool ∷ pmdk_cant_find_key
    ∷ pmdk_cant_allocate_str ∷ pmdk_cant_allocate_obj ∷ pmdk_load_failed ∷ pmdk_free_failed ∷ []
