-- ===== src/Lib.antt =====
-- The RTCM code of c/rtklib, an extract of RTKLIB in C, as it stands in this repository: from the
-- bits of a message over the parities and the frames to the messages themselves.
--
-- Parts, and the code that each file models (rtkcmn.c, rtcm.c, rtcm3.c and rtcm3e.c stand in
-- c/rtklib):
--   Bits        rtkcmn.c: getbitu, getbits, setbitu, setbits. A buffer is the list of its bytes, an
--               unsigned int a number below 2 ^ 32, an int its 32-bit pattern. Bits/Cell, Ranges and
--               Signed read a buffer bit by bit; Bits/Fields and Message treat the chains
--               `setbitu(buff,i,len,word); i+=len;` by which every encoder builds a message.
--   Crc         rtkcmn.c: rtk_crc24q, rtk_crc32, rtk_crc16 and their tables. Crc/Step ties the table
--               of CRC-24Q to eight shifts, Crc/Detect has the division and the detection of errors.
--   Rtcm        rtcm.c: input_rtcm3 (check_parity and collect are its end) and gen_rtcm3
--               (start_frame, pad, close_frame). decode_rtcm3 and encode_rtcm3 are arguments.
--               Rtcm/Receive, Link and Invariant are about the receiver, Rtcm/Generate about the
--               sender, Rtcm/Delivery joins the two, and Rtcm/File is input_rtcm3f.
--   Rtcm2       rtcm.c: input_rtcm2, with decode_word of rtkcmn.c. decode_rtcm2 is not in the
--               repository and is an argument. Rtcm2/File is input_rtcm2f.
--   Satellite   rtkcmn.c: satno, satsys, satexclude.
--   Ephemeris   rtcm3.c and rtcm3e.c: decode_type and encode_type of 1019 (Gps), 1042 and 63
--               (Beidou), 1044 (Qzss), 1045 and 1046 (GalileoF, GalileoI), with adjgpsweek of
--               rtkcmn.c and adjbdtweek. What an encoder and a decoder have in common stands in
--               Ephemeris: the guards on the satellite, the test for an unchanged ephemeris, the
--               store. Between the doubles and the bits each message is a record of words.
--   Glonass     the same for 1020, with setbitg and getbitg.
--   Station     the same for 1005 and 1006, with set38bits, getbits_38 and test_staid.
--   Codes       rtkcmn.c: obs2code, code2obs, getcodepri and their tables; the signal ids of rtcm3.c
--               and rtcm3e.c (to_sigid). The name of a signal is the pair of its characters.
--   Obs         rtcm3.c: obsindex, adjcp, snratio, adjweek, adjday_glot. Obs/Table is about the table.
--   Msm         multiple signal messages: rtcm3e.c, encode_msm_head to encode_msm7, and rtcm3.c,
--               sigindex to decode_msm7. A message is a head and columns of words (Msm, Columns,
--               Head); Values goes from doubles to words and back, with satwavelen of rtkcmn.c; Index
--               has gen_msm_index, gen_msm_sat and gen_msm_sig, Masks and Numbering what the numbers
--               mean to a decoder; Signals and Places are sigindex; Encode and Decode the messages,
--               RoundTrip and Sent one after the other, Invariant the table of the receiver.
--   Dispatch    rtcm3.c: decode_rtcm3, and rtcm3e.c: encode_rtcm3, for any handlers. Dispatch/Tables has
--               the two switches, Dispatch/Match how they fit.
--   Ephemeris/Unique   rtkcmn.c: uniqeph and uniqgeph, over any qsort.
--   Time        rtkcmn.c: epoch2time, time2epoch, the conversions to and from the weeks of a system.
--               Time/RoundTrip and Time/Scales go there and back; Ephemeris/Weeks puts those for
--               GPS into the ephemerides.
--   Lock        rtcm3e.c: to_lock, to_msm_lock, to_msm_lock_ex; rtcm3.c: lossoflock.
--   Base        shared tests, lists, and the laws of the bit operations; Tests has runs on concrete
--               inputs.
--
-- A receiver is an explicit state, the members of rtcm_t that a part uses; what the framing does not
-- touch is the parameter `body`. A handler returns the next state and its status. The encoders run
-- inside gen_rtcm3 and the decoders inside input_rtcm3, and the modules named Delivery take a message
-- the whole way.
--
-- Parameters. rtklib.h is not in the repository: its ranges of satellites are `PrnRanges`, its units
-- P2_5, SC2RAD and so on are members of `Doubles`. Doubles are any type with the operations of
-- `Doubles`; where a theorem needs that scaling by a unit and back gives the same word, this is
-- `IsExact`. The carrier frequencies, NFREQ, NEXOBS and MAXOBS are members of `Setup`, the numbers
-- CODE_... are `CodeNumbers`, and the priority texts of getcodepri `Priorities`. Times and
-- their conversions are `Clock` and `Calendar` in the messages, which Ephemeris/Weeks fills with the
-- conversions of GPS times. The option text is reduced to the options that are looked for.
--
-- Loops run on the rounds they have left: `len` rounds for getbitu and setbitu, 8 for the padding
-- (seven bits are enough to reach a whole byte), 26 for the bits of a word of RTCM 2 (a masked word
-- shifted by 6 is below 2 ^ 26), 6 for the bits of a byte there, 4096 for the bytes of
-- a file, the limit that the code has.
--
-- Not modelled: trace output and message texts, which change no other state; the other messages
-- (antenna texts, the observations of types 1001 to 1012, corrections);
-- additions to times, leap seconds and the texts of times; the lists of observations; allocation
-- and its failure; the numerical and the file parts of rtkcmn.c; the sources under c/BNC;
-- the Go code under rtcm and apps.
mod Base
pub mod Bits
pub mod Crc
pub mod Satellite
pub mod Codes
pub mod Obs
pub mod Msm
pub mod Dispatch
pub mod Time
pub mod Ephemeris
pub mod Rtcm
pub mod Rtcm2
pub mod Lock
pub mod Station
pub mod Glonass
mod Tests
