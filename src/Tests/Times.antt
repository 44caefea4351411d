-- ===== src/Tests/Times.antt =====
-- convert_time with a calendar of the first day of 1970.
use docker_plugin_cpp.Base.{
  ◌/◌, ◌%◌, ◌≡◌, ◌≤◌, ◌++◌, refl, [], ◌∷◌, text, ltb, if◌then◌else◌, arith, length,
}
use docker_plugin_cpp.Base.Digits.{to_string}
use docker_plugin_cpp.Volume.Times.{Calendar, IsGregorian, convert_time, written, convert_time_lem}

-- strftime of one format, which leaves an array that is too short as it is.
abbrev first_day : Calendar
first_day = record {
  gmtime = λ time_point. record {
    tm_year = 1970;
    tm_mon = 1;
    tm_mday = 1;
    tm_hour = time_point / 3600 % 24;
    tm_min = time_point / 60 % 60;
    tm_sec = time_point % 60;
  };
  strftime = λ array format t.
      if ltb (length (written t)) (length array) then written t ++ 0 ∷ [] else array;
}

first_day-IsGregorian : IsGregorian first_day
first_day-IsGregorian = record {
  in_range = λ time_point. (omega arith, omega arith, omega arith, omega arith, omega arith);
  fits = λ array t in_range h. ([], ground arith);
}

-- 12:34:56
convert_time_example :
    (convert_time first_day 45296 ≡ written (first_day.gmtime 45296))
    × (length (convert_time first_day 45296) ≤ 20)
convert_time_example = convert_time_lem first_day 45296 first_day-IsGregorian (omega arith)

midday : convert_time first_day 45296 ≡ text "1970-01-01T12:34:56Z"
unfolding convert_time text to_string
midday = refl
